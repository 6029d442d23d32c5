-- ===== src/Caller/Queries.antt =====
-- fsmwebCaller.cc: the queries, and what the caller keeps of the answers.
use zdaq.Base.{
  ℕ, Bool, true, false, [], ◌++◌, Option, none, some, ltb, if◌then◌else◌, length, Result, ok, ◌>>=◌,
  or_fault, thrown,
}
use zdaq.Base.Memory.{Bytes}
use zdaq.Base.Text.{codes, decimal}
use zdaq.Json.{Json, get, has, parsed}
use zdaq.Caller.{Caller}
use zdaq.Caller.Encoding.{encoded}

module _ {J : Type 0} (json : Json J) (page : Bytes → Bytes) where
  abbrev is_parsed : Bytes → Bool
  is_parsed s = elim (json.parse s) [ none ↦ false | some v ↦ true ]

  abbrev address : Bytes → ℕ → Bytes
  address host port = codes "http://" ++ (host ++ (codes ":" ++ (decimal port ++ codes "/")))

  abbrev text_member : Bytes → J → Result Bytes
  text_member k o = do v ← get json k o; or_fault (json.as_string v) thrown

  -- The prefix comes from the server itself; the URL stays empty where it answers no JSON.
  unfoldable pub make : Bytes → ℕ → Result (Caller J)
  make host port = do
    let rc = page (address host port)
    let c : Caller J = record {
      host = host;
      port = port;
      url = [];
      parse_ok = is_parsed rc;
      config = parsed json rc;
      answer = json.null;
    }
    if is_parsed rc
        then (do
          prefix ← text_member (codes "PREFIX") c.config
          ok (record c { url = address host port ++ (prefix ++ codes "/") }))
        else ok c

  unfoldable pub query_state : Caller J → Result (Bytes × Caller J)
  query_state c =
      let rc = page c.url in
      let c' = record c { parse_ok = is_parsed rc } in
      if is_parsed rc
      then (do s ← text_member (codes "STATE") (parsed json rc); ok (s, c'))
      else ok (codes "UNKOWN", c')

  unfoldable pub query_web_status : Caller J → J × Caller J
  query_web_status c =
      let rc = page c.url in
      let c' = record c { parse_ok = is_parsed rc } in
      if is_parsed rc then (parsed json rc, c') else (json.null, c')

  -- The answer in the content of a reply, null where there is none.
  abbrev pub answer_in : Bytes → Result J
  answer_in rc = elim (json.parse rc) [
    | none ↦ ok json.null
    | some v ↦ do
      c ← get json (codes "content") v
      answered ← has json (codes "answer") c
      ok (if answered then json.member (codes "answer") c else json.null)
  ]

  -- `none` is `Json::Value::null`.
  abbrev pub content_text : Option J → Result Bytes
  content_text none = ok (codes "{}")
  content_text (some v) = encoded (json.write v)

  abbrev pub transition_query : Caller J → Bytes → Bytes → Bytes
  transition_query c name content =
      c.url ++ (codes "FSM?command=" ++ (name ++ (codes "&content=" ++ content)))

  unfoldable pub send_transition : Bytes → Option J → Caller J → Result (Bytes × Caller J)
  send_transition name content c = do
    out ← content_text content
    let rc = page (transition_query c name out)
    answer ← answer_in rc
    ok (rc, record c { answer = answer })

  -- Parameters of up to two characters are left out.
  abbrev pub command_query : Caller J → Bytes → Bytes → Bytes
  command_query c name params =
      c.url ++ (codes "CMD?name=" ++ (name ++ (if ltb 2 (length params) then params else [])))

  unfoldable pub send_command : Bytes → Bytes → Caller J → Bytes × Caller J
  send_command name params c =
      let rc = page (command_query c name params) in
      (rc, record c { answer = elim (json.parse rc) [ none ↦ json.null | some v ↦ v ] })
