-- ===== src/Peers/Serve.antt =====
-- peers/peer.go: what a peer does with a request. A value that a method takes or fills is a `V`; the
-- methods, the pre-processing of the setup and the codec are parameters.
use silvernode_go.Common.{
  Bool, ◌&&◌, Option, none, some, List, [], ◌∷◌, ◌++◌, if◌then◌else◌, pos, Run, ret, panic, stuck,
  ◌==◌, Bytes, nat_eq, bytes_eq,
}
use silvernode_go.Stl.GoMap.{GoMap, lookup}
use silvernode_go.Peers.Exchange.{Exchange}
use silvernode_go.Node.{is_guest}
use silvernode_go.Peers.Calls.{int_eq}
pub mod Answers
pub mod Guards

-- What decoding the arguments gives: a value or an error.
pub data Fetched (V : Type 0) : Type 0 where
  got : V → Fetched V
  bad : Bytes → Fetched V

-- A method takes the arguments and answers the filled reply and perhaps an error, or panics or never
-- returns. `inner` keeps guests
-- out. `meta` is what a peer with generated code has in place of reflection: the creation of the
-- arguments and the reply, which may fail, and the call of a method by its name.
pub record Meta (V : Type 0) : Type 0 where
  pub create_beans : Bytes → Bytes → Option Bytes
  pub process_flow : Bytes → V → Run (V × Option Bytes)

pub record Peer (V : Type 0) : Type 0 where
  pub nick : Bytes
  pub inner : Bool
  pub methods : GoMap Bytes (V → Run (V × Option Bytes))
  pub meta : Option (Meta V)

-- What the program sees of a request: a method runs, an error is reported to the node, an answer is
-- handed to Marshal for the sender's node. A panic of the method is caught around `dealExchange`, and a
-- method may run for ever.
pub data Deed (V : Type 0) : Type 0 where
  invoked : Bytes → V → Deed V
  reported : Bytes → Deed V
  responded : Exchange → Option V → Deed V
  panicked : Deed V
  endless : Deed V

-- "没有访问权限:"
abbrev pub no_access : Bytes
no_access =
    230 ∷ 178 ∷ 161 ∷ 230 ∷ 156 ∷ 137 ∷ 232 ∷ 174 ∷ 191 ∷ 233 ∷ 151 ∷ 174 ∷ 230 ∷ 157 ∷ 131 ∷ 233
    ∷ 153 ∷ 144 ∷ 58 ∷ []

-- "目标事件不存在:"
abbrev pub no_event : Bytes
no_event =
    231 ∷ 155 ∷ 174 ∷ 230 ∷ 160 ∷ 135 ∷ 228 ∷ 186 ∷ 139 ∷ 228 ∷ 187 ∷ 182 ∷ 228 ∷ 184 ∷ 141 ∷ 229
    ∷ 173 ∷ 152 ∷ 229 ∷ 156 ∷ 168 ∷ 58 ∷ []

-- "目标事件执行异常:"
abbrev pub event_failed : Bytes
event_failed =
    231 ∷ 155 ∷ 174 ∷ 230 ∷ 160 ∷ 135 ∷ 228 ∷ 186 ∷ 139 ∷ 228 ∷ 187 ∷ 182 ∷ 230 ∷ 137 ∷ 167 ∷ 232
    ∷ 161 ∷ 140 ∷ 229 ∷ 188 ∷ 130 ∷ 229 ∷ 184 ∷ 184 ∷ 58 ∷ []

-- "方法不存在:"
abbrev pub no_method : Bytes
no_method =
    230 ∷ 150 ∷ 185 ∷ 230 ∷ 179 ∷ 149 ∷ 228 ∷ 184 ∷ 141 ∷ 229 ∷ 173 ∷ 152 ∷ 229 ∷ 156 ∷ 168 ∷ 58
    ∷ []

-- "请求数据反序列化出错:"
abbrev pub bad_request : Bytes
bad_request =
    232 ∷ 175 ∷ 183 ∷ 230 ∷ 177 ∷ 130 ∷ 230 ∷ 149 ∷ 176 ∷ 230 ∷ 141 ∷ 174 ∷ 229 ∷ 143 ∷ 141 ∷ 229
    ∷ 186 ∷ 143 ∷ 229 ∷ 136 ∷ 151 ∷ 229 ∷ 140 ∷ 150 ∷ 229 ∷ 135 ∷ 186 ∷ 233 ∷ 148 ∷ 153 ∷ 58 ∷ []

-- The text of an error, empty for none.
abbrev pub error_text : Option Bytes → Bytes
error_text none = []
error_text (some text) = text

-- The answer to a request.
abbrev pub answer_to : Exchange → Option Bytes → Exchange
answer_to e err = record {
  from = e.to;
  to = e.from;
  func = [];
  seq = e.seq;
  ret_mark = 1;
  err = error_text err;
}

module _ {V : Type 0} where
  -- `response` up to the sending.
  unfoldable pub response : Exchange → Option V → Option Bytes → List (Deed V)
  response e reply err = if e.seq == pos 0 then [] else responded (answer_to e err) reply ∷ []

  abbrev pub after_event : Exchange → Option Bytes → List (Deed V)
  after_event e none = []
  after_event e (some text) = reported (event_failed ++ e.func ++ 58 ∷ text) ∷ []

  -- The method of a peer without generated code has run: an event's error is reported.
  abbrev pub after_call : Exchange → V × Option Bytes → List (Deed V)
  after_call e (reply, err) =
      if e.seq == pos 0 then after_event e err else response e (some reply) err

  -- What follows a method, if it returns
  abbrev pub when_returned :
      Run (V × Option Bytes) → (V × Option Bytes → List (Deed V)) → List (Deed V)
  when_returned (ret r) follow = follow r
  when_returned panic follow = panicked ∷ []
  when_returned stuck follow = endless ∷ []

  abbrev pub call_method : Exchange → Fetched V → (V → Run (V × Option Bytes)) → List (Deed V)
  call_method e (bad err) method = response e none (some err)
  call_method e (got args) method = invoked e.func args ∷ when_returned (method args) (after_call e)

  -- The method of a peer with generated code has run.
  abbrev pub after_flow : Exchange → V × Option Bytes → List (Deed V)
  after_flow e (reply, some err) = response e none (some err)
  after_flow e (reply, none) = response e (some reply) none

  abbrev pub flow : Exchange → Fetched V → Meta V → List (Deed V)
  flow e (bad err) m = response e none (some (bad_request ++ err))
  flow e (got args) m =
      invoked e.func args ∷ when_returned (m.process_flow e.func args) (after_flow e)

  abbrev pub with_beans : Exchange → Fetched V → Meta V → Option Bytes → List (Deed V)
  with_beans e fetched m none = flow e fetched m
  with_beans e fetched m (some err) = response e none (some err)

  abbrev pub with_method :
      Bytes → Exchange → Fetched V → Option (Meta V) → (V → Run (V × Option Bytes)) → List (Deed V)
  with_method node e fetched none method = call_method e fetched method
  with_method node e fetched (some m) method = with_beans e fetched m (m.create_beans e.func node)

  -- There is no such method.
  unfoldable pub without_method : Exchange → List (Deed V)
  unfolding response
  without_method e =
      if e.seq == pos 0
      then reported (no_event ++ e.func) ∷ []
      else response e none (some (no_method ++ e.func))

  abbrev pub after_lookup :
      Bytes → Exchange → Fetched V → Peer V → Option (V → Run (V × Option Bytes)) → List (Deed V)
  after_lookup node e fetched p none = without_method e
  after_lookup node e fetched p (some method) = with_method node e fetched p.meta method

  abbrev pub after_pre_proc : Bytes → Exchange → Fetched V → Peer V → Option Bytes → List (Deed V)
  after_pre_proc node e fetched p (some err) = response e none (some err)
  after_pre_proc node e fetched p none = after_lookup node e fetched p (lookup e.func p.methods)

  -- `dealExchange` of a request from a node. The last arguments are the error of `OnPreProc`, if any,
  -- and what decoding the arguments gives.
  unfoldable pub deal_request :
      Peer V → (Bytes → Bytes → Bytes → Option Bytes) → Bytes → Exchange → Fetched V → List (Deed V)
  unfolding response
  deal_request p pre_proc node e fetched =
      if p.inner && is_guest node
      then response e none (some (no_access ++ p.nick))
      else after_pre_proc node e fetched p (pre_proc node e.to e.func)
