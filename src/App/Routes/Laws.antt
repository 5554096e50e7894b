-- ===== src/App/Routes/Laws.antt =====
-- Every request to its response: the status and the body that go with what was stored.
use deribit_price_collector.Config
use deribit_price_collector.Config.{Config}
use deribit_price_collector.Table.{Table}
use deribit_price_collector.Metrics.{RuntimeMetrics, on_request_start}
use deribit_price_collector.Api.Replies.{Reply}
use deribit_price_collector.App.Routes.{Request, Payload, Server, Moment, path_of, route}

module _ {F : Type 0} (s : Server F) (k : Moment F) (t : Table) (m : RuntimeMetrics F) where
  -- The reply of a request's route.
  abbrev reply_to : Request → Reply (Payload F)
  reply_to r = route s k t (on_request_start s.zero_ms s.add (path_of r) m) r
