-- ===== src/Api.antt =====
-- app/api/endpoints.py: the routes. A handler takes the query as pydantic is given it, and the rows
-- that its session sees; it returns a value or raises. The session is closed by `get_async_session`.
pub mod Replies
pub mod Prices
pub mod Registry
pub mod Metrics
