-- ===== src/Application.antt =====
-- src/baseApplication.cc: what every application has, a machine on a web server, a configuration and
-- the parameters that are its own in it. Files, pages and the variables of the environment are given.
pub mod Apps
pub mod Parameters
use zdaq.Base.{
  ℕ, Bool, ◌||◌, not, ◌==◌, if◌then◌else◌, Option, none, some, List, [], ◌∷◌, Result, ok, ◌>>=◌,
  or_fault, thrown,
}
use zdaq.Base.Memory.{Bytes}
use zdaq.Base.Text.{codes, bytes_eq, first_chars, chars_from}
use zdaq.Json.{Json, get, has, parsed}
use zdaq.Configs.{before, behind, unwrapped, number_of, member_text}
use zdaq.Caller.{Caller}
use zdaq.Fsm.{Message, Transition, add_state, add_transition, set_state}
use zdaq.Fsm.Messages.{content, set_answer}
use zdaq.Web
use zdaq.Web.{Request, Web, param, add_command}

pub record Environment : Type 0 where
  pub variable : Bytes → Option Bytes
  pub hostname : Bytes
  pub file_text : Bytes → Bytes
  pub page_text : Bytes → Bytes → Bytes
  pub download : Bytes → Bytes → Bytes

pub record App (J : Type 0) : Type 0 where
  pub hostname : Bytes
  pub login : Bytes
  pub process_name : Bytes
  pub config : J
  pub param : J
  pub info : J
  pub instance_id : ℕ
  pub port : ℕ
  pub apps : List (Caller J)

module _ {J : Type 0} (json : Json J) where
  abbrev number_variable : Option Bytes → ℕ
  number_variable none = 0
  number_variable (some s) = number_of s

  unfoldable pub make_app : Environment → App J
  make_app env =
      let process_name : Bytes = elim (env.variable (codes "PROCESSNAME")) [
        | none ↦ codes "UNKNOWN"
        | some s ↦ s
      ] in
      let login : Bytes = elim (env.variable (codes "WEBLOGIN")) [ none ↦ [] | some s ↦ s ] in
      let instance_id = number_variable (env.variable (codes "INSTANCE")) in
      let port = number_variable (env.variable (codes "WEBPORT")) in
      let a = json.put (codes "host") (json.text env.hostname) json.null in
      let b = json.put (codes "port") (json.number port) a in
      let c = json.put (codes "name") (json.text process_name) b in
      let d = json.put (codes "instance") (json.number instance_id) c in
      record {
        hostname = env.hostname;
        login = login;
        process_name = process_name;
        config = json.null;
        param = json.null;
        info = json.put (codes "login") (json.text login) d;
        instance_id = instance_id;
        port = port;
        apps = [];
      }

  -- The port and the instance that the variables of a process give, each by the last one.
  unfoldable pub port_and_instance : List J → ℕ × ℕ → Result (ℕ × ℕ)
  port_and_instance [] found = ok found
  port_and_instance (v ∷ vs) (port, instance_id) = do
    envp ← or_fault (json.as_string v) thrown
    port' ←
        if bytes_eq (first_chars 7 envp) (codes "WEBPORT")
        then (do digits ← chars_from 8 envp; ok (number_of digits))
        else ok port
    instance_id' ←
        if bytes_eq (first_chars 8 envp) (codes "INSTANCE")
        then (do digits ← chars_from 9 envp; ok (number_of digits))
        else ok instance_id
    port_and_instance vs (port', instance_id')

  abbrev pub numbers_of : J → Result (ℕ × ℕ)
  numbers_of b = do
    with_env ← has json (codes "ENV") b
    if with_env
        then port_and_instance (json.elements (json.member (codes "ENV") b)) (0, 0)
        else ok (0, 0)

  abbrev pub with_numbers : App J → J → ℕ × ℕ → Result (Option J)
  with_numbers app b (port, instance_id) =
      if not (port == app.port) || not (instance_id == app.instance_id) then ok none else (do
        with_parameter ← has json (codes "PARAMETER") b
        ok (if with_parameter then some (json.member (codes "PARAMETER") b) else none))

  abbrev pub with_its_name : App J → J → Bytes → Result (Option J)
  with_its_name app b name =
      if not (bytes_eq name app.process_name)
      then ok none
      else (do numbers ← numbers_of b; with_numbers app b numbers)

  -- The parameters that one process of the host has, if it is this one.
  unfoldable pub parameters_of : App J → J → Result (Option J)
  parameters_of app b = do
    with_name ← has json (codes "NAME") b
    if with_name
        then (do name ← member_text json (codes "NAME") b; with_its_name app b name)
        else ok none

  unfoldable pub find_parameters : App J → List J → Result J
  find_parameters app [] = ok app.param
  find_parameters app (b ∷ bs) = do
    found ← parameters_of app b
    elim found [ none ↦ find_parameters app bs | some p ↦ ok p ]

  unfoldable pub read_config : Environment → J → App J → Result (App J)
  read_config env jc app = do
    from_file ← has json (codes "file") jc
    from_url ← has json (codes "url") jc
    from_mongo ← has json (codes "mongo") jc
    if from_file
        then (do
          name ← member_text json (codes "file") jc
          ok (record app { config = parsed json (env.file_text name) }))
        else if from_url
        then (do
          url ← member_text json (codes "url") jc
          v ← unwrapped json (env.page_text url app.login)
          ok (record app { config = v }))
        else if from_mongo
        then (do
          identity ← member_text json (codes "mongo") jc
          v ← unwrapped json (env.download (before b':' identity) (behind b':' identity))
          ok (record app { config = v }))
        else ok app

  abbrev pub error_answer : Bytes → J
  error_answer reason = json.put (codes "error") (json.text reason) json.null

  abbrev answering : J → Message J → App J → Result (Message J × App J)
  answering rep m app = do m' ← set_answer json rep m; ok (m', app)

  -- The search for the process in a configuration that names the host, and the answer.
  abbrev pub created : Message J → App J → Result (Message J × App J)
  created m app = do
    let hosts = json.member (codes "HOSTS") app.config
    p ← find_parameters app (json.elements (json.member app.hostname hosts))
    let rep = json.put (codes "config") app.config (json.put (codes "param") p json.null)
    answering rep m (record app { param = p })

  -- What follows once the configuration is read.
  abbrev pub configured : Message J → App J → Result (Message J × App J)
  configured m app =
      if json.is_null app.config
      then answering (error_answer (codes "Missing configuration")) m app
      else (do
        with_hosts ← has json (codes "HOSTS") app.config
        if not with_hosts then answering (error_answer (codes "Missing HOSTS tag")) m app else (do
          with_host ← has json app.hostname (json.member (codes "HOSTS") app.config)
          if with_host
              then created m app
              else answering
                  (json.put (codes "config") app.config
                    (error_answer (codes "Missing hostname in list")))
                  m app))

  -- `userCreate` of this class does nothing.
  unfoldable pub create : Environment → Message J → App J → Result (Message J × App J)
  create env m app = do
    jc ← content json m
    with_login ← has json (codes "login") jc
    login ← if with_login then member_text json (codes "login") jc else ok app.login
    app' ← read_config env jc (record app { login = login })
    configured m app'

  abbrev pub with_status : Bytes → J
  with_status s = json.put (codes "STATUS") (json.text s) json.null

  unfoldable pub c_getconfiguration : App J → J
  c_getconfiguration app =
      if json.is_null app.config
      then with_status (codes "NO Configuration yet")
      else json.put (codes "configuration") app.config (with_status (codes "DONE"))

  unfoldable pub c_getparameter : App J → J
  c_getparameter app =
      if json.is_null app.param
      then with_status (codes "No Parameters yet")
      else json.put (codes "PARAMETER") app.param (with_status (codes "DONE"))

  unfoldable pub c_info : App J → J
  c_info app = json.put (codes "INFO") app.info (with_status (codes "DONE"))

  unfoldable pub c_setparameter : Request → App J → J × App J
  c_setparameter request app =
      let str = param request (codes "PARAMETER") (codes "NONE") in
      if bytes_eq str (codes "NONE")
      then (with_status (codes "No PARAMETER tag found"), app)
      else elim (json.parse str) [
        | none ↦ (with_status (codes "Invalid parsing of PARAMETER"), app)
        | some v ↦
            (json.put (codes "PARAMETER") v (with_status (codes "DONE")), record app { param = v })
      ]

  -- The server of an application, for an object `W` that has an `App`: `put` is the object with
  -- another one.
  module _ {W : Type 0} (env : Environment) (app_of : W → App J) (put : App J → W → W) where
    abbrev pub created_in : Message J → W → Result (Message J × W)
    created_in m w = do (m', app) ← create env m (app_of w); ok (m', put app w)

    unfoldable pub make_web : Bytes → Web J W
    make_web name =
        let base : Web J W = Web.make name in
        let stated = add_state (codes "CREATED") (add_state (codes "VOID") base.fsm) in
        let t : Transition J W = record {
          initial = codes "VOID";
          final = codes "CREATED";
          callback = created_in;
        } in
        let fsm = add_transition (codes "CREATE") t stated in
        let a =
          add_command (codes "GETCONFIG") (λ request state w. ok (c_getconfiguration (app_of w), w))
            (record base { fsm = fsm }) in
        let b =
          add_command (codes "GETPARAM") (λ request state w. ok (c_getparameter (app_of w), w)) a in
        let c =
          add_command (codes "SETPARAM")
            (λ request state w.
              let (rep, app) = c_setparameter request (app_of w) in ok (rep, put app w))
            b in
        let d = add_command (codes "INFO") (λ request state w. ok (c_info (app_of w), w)) c in
        record d { fsm = set_state (codes "VOID") d.fsm }
