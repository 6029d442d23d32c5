-- ===== src/Caller.antt =====
-- src/fsmwebCaller.cc: the client of the web servers. What a server answers to a query is given, as
-- `page`; libcurl fetches it.
pub mod Encoding
pub mod Queries
use zdaq.Base.{ℕ, Bool}
use zdaq.Base.Memory.{Bytes}

pub record Caller (J : Type 0) : Type 0 where
  pub host : Bytes
  pub port : ℕ
  pub url : Bytes
  pub parse_ok : Bool
  pub config : J
  pub answer : J
