-- ===== src/Http.antt =====
-- wuduo/http: the request line and the headers, the parsing context, the response.
pub mod Text
pub mod Number
pub mod Request
pub mod Context
pub mod Status
pub mod Response
pub mod HttpServer
