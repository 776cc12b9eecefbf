-- ===== src/SslClass/Spec.antt =====
-- The promise of ssl_class.rs: a state machine over what a connection's calls begin with.
use honeybeepf_llm.Prelude.{Bool, true, false}

-- Where a connection stands; `sent true` once the response to the last request was read.
pub data Standing : Type 0 where
  fresh : Standing
  sent : Bool → Standing
  other_request server_or_unserved http2 : Standing

-- What a Write begins with.
pub data WriteHead : Type 0 where
  cut post preface response asks_response other_method body : WriteHead

pub data Call : Type 0 where
  write : WriteHead → Call
  read : Call

unfoldable pub step : Standing → Call → Standing
step Standing.server_or_unserved c = Standing.server_or_unserved
step Standing.http2 c = Standing.http2
step (Standing.sent seen) Call.read = Standing.sent true
step Standing.fresh Call.read = Standing.fresh
step Standing.other_request Call.read = Standing.other_request
step s (Call.write WriteHead.post) = Standing.sent false
step s (Call.write WriteHead.asks_response) = Standing.sent false
step s (Call.write WriteHead.preface) = Standing.http2
step s (Call.write WriteHead.body) = s
step Standing.fresh (Call.write WriteHead.cut) = Standing.fresh
step Standing.fresh (Call.write WriteHead.response) = Standing.server_or_unserved
step Standing.fresh (Call.write WriteHead.other_method) = Standing.other_request
step (Standing.sent seen) (Call.write WriteHead.cut) = Standing.sent seen
step (Standing.sent seen) (Call.write WriteHead.response) = Standing.sent seen
step (Standing.sent false) (Call.write WriteHead.other_method) = Standing.sent false
step (Standing.sent true) (Call.write WriteHead.other_method) = Standing.other_request
step Standing.other_request (Call.write WriteHead.cut) = Standing.fresh
step Standing.other_request (Call.write WriteHead.response) = Standing.other_request
step Standing.other_request (Call.write WriteHead.other_method) = Standing.other_request
