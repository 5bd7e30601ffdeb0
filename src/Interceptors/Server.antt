-- ===== src/Interceptors/Server.antt =====
-- Unary RPCs as functions over the state of a server. A call returns a response and an error,
-- either of which may be nil, or it panics.
use skillsphere_api.Common.{ℕ, String, Bool, Option, some, List}
use skillsphere_api.Errors.{Error, connect_error, Code, message}
use skillsphere_api.World.{World, advance}
use skillsphere_api.Interceptors.Context.{Context, Request}

pub record Response : Type 0 where
  pub headers : List (String × String)
  pub body : String

-- A connect.AnyResponse: the nil interface, the nil pointer of a *Response, which is not the nil
-- interface, or a response.
pub data Reply : Type 0 where
  no_reply nil_pointer : Reply
  reply : Response → Reply

pub data Outcome : Type 0 where
  returns : Reply → Option Error → Outcome
  panics : String → Outcome

pub data LogLine : Type 0 where
  rpc_started rpc_completed rpc_failed panic_recovered : String → Option String → LogLine

pub record Span : Type 0 where
  pub name : String
  pub service : String
  pub failed : Bool

-- Newest entries come first. `active` is the gauge by procedure, `requests` the increments of
-- the counter, `observed` those of the histogram.
pub record Server : Type 0 where
  pub app : World
  pub active : String → ℕ
  pub requests : List (String × String)
  pub observed : List String
  pub log : List LogLine
  pub spans : List Span

abbrev pub UnaryFunc : Type 0
UnaryFunc = Context → Request → Server → Outcome × Server

abbrev pub Interceptor : Type 0
Interceptor = UnaryFunc → UnaryFunc

abbrev pub step : Server → Server
step v = record v { app = advance v.app }

-- `return nil, connect.NewError(code, errors.New(text))`
abbrev pub refused : Code → String → Outcome
refused code text = returns no_reply (some (connect_error code (message text)))
