-- ===== src/Examples/Apps.antt =====
-- An application, its parameters and the applications that it finds.
use zdaq.Base.{◌≡◌, refl, ◌⊎◌, true, false, none, some, All, [], ◌∷◌, ok, if◌then◌else◌}
use zdaq.Base.Memory.{Bytes, cut}
use zdaq.Base.Text.{codes, bytes_eq, scan_digits, decimal}
use zdaq.Json.Packed.{packed, lookup, unpack, names_in}
use zdaq.Wire.{scan_long, skip_space}
use zdaq.Web.{Request, handle_request}
use zdaq.Application.{
  App, Environment, make_app, find_parameters, parameters_of, port_and_instance, with_status,
}
use zdaq.Application.Apps.{
  find_apps, find_apps-All, IsOther, callers_from, callers_on, caller_of, web_port,
}
use zdaq.Application.Parameters.{
  IsMine, Exists, find_parameters-Exists, ok_answer, server, getparameter-setparameter,
}
use zdaq.Caller.Queries

abbrev pub environment : Environment
environment = record {
  variable = λ name. none;
  hostname = codes "pc";
  file_text = λ name. [];
  page_text = λ url login. [];
  download = λ name version. [];
}

abbrev app : App Bytes
app = record (make_app packed environment) {
  process_name = codes "DIF";
  port = 80;
  instance_id = 0;
}

abbrev process : Bytes → Bytes
process port = packed.put (codes "PARAMETER") (packed.number 6) (
    packed.put (codes "ENV") (packed.append (packed.text port) packed.null)
      (packed.put (codes "NAME") (packed.text (codes "DIF")) packed.null))

found :
    find_parameters packed app (process (codes "WEBPORT=81") ∷ process (codes "WEBPORT=80") ∷ [])
    ≡ ok (packed.number 6)
unfolding find_parameters parameters_of port_and_instance make_app lookup unpack cut bytes_eq
    scan_long skip_space scan_digits
found = refl

find_parameters-Exists_example :
    Exists packed app
      (IsMine packed app (packed.number 6))
      (process (codes "WEBPORT=81") ∷ process (codes "WEBPORT=80") ∷ [])
    ⊎ (packed.number 6 ≡ app.param)
find_parameters-Exists_example =
    find_parameters-Exists packed app
      (process (codes "WEBPORT=81") ∷ process (codes "WEBPORT=80") ∷ []) found

-- The parameters as a text, 4 and 6, for the stand-in of jsoncpp.
abbrev setting : Request
setting k =
    if bytes_eq k (codes "name")
    then some (codes "SETPARAM")
    else if bytes_eq k (codes "PARAMETER")
    then some (packed.number 6)
    else none

abbrev getting : Request
getting k = if bytes_eq k (codes "name") then some (codes "GETPARAM") else none

asked :
    (zdaq.Web.param setting (codes "name") (codes "NOTSET") ≡ codes "SETPARAM")
    × (zdaq.Web.param setting (codes "PARAMETER") (codes "NONE") ≡ packed.number 6)
    × (bytes_eq (packed.number 6) (codes "NONE") ≡ false)
    × (zdaq.Web.param getting (codes "name") (codes "NOTSET") ≡ codes "GETPARAM")
unfolding bytes_eq
asked = (refl, refl, refl, refl)

getparameter-setparameter_example :
    let web = server packed environment (λ a. a) (λ a b. a) (codes "dif") in
    let app' : App Bytes = record app { param = packed.number 6 } in
    let rep =
      packed.put (codes "PARAMETER") (packed.number 6) (with_status packed (codes "DONE")) in
    (handle_request packed setting web app ≡ ok (ok_answer packed rep, app'))
    × (handle_request packed getting web app' ≡ ok (ok_answer packed rep, app'))
getparameter-setparameter_example =
    getparameter-setparameter packed environment (λ a. a) (λ a b. a) (codes "dif") (λ a w. refl)
      setting getting (packed.number 6) app asked.0 asked.1 asked.2 refl refl asked.3

-- Two processes of the name on this host, one of them the application itself.
abbrev knowing : App Bytes
knowing = record app {
  config =
      packed.put (codes "HOSTS")
        (packed.put (codes "pc")
          (packed.append (process (codes "WEBPORT=81"))
            (packed.append (process (codes "WEBPORT=80")) packed.null))
          packed.null)
        packed.null;
}

abbrev answering_page : Bytes → Bytes
answering_page url = packed.put (codes "PREFIX") (packed.text (codes "DIF")) packed.null

abbrev known : App Bytes
known = record knowing {
  apps =
      record {
        host = codes "pc";
        port = 81;
        url = codes "http://pc:81/DIF/";
        parse_ok = true;
        config = answering_page [];
        answer = packed.null;
      }
      ∷ [];
}

apps_found : find_apps packed answering_page (codes "DIF") knowing ≡ ok known
unfolding find_apps callers_from callers_on caller_of web_port Queries.make make_app lookup unpack
    names_in cut bytes_eq scan_long skip_space scan_digits decimal
apps_found = refl

find_apps-All_example :
    All (IsOther packed answering_page knowing) known.apps
    × (known ≡ record knowing { apps = known.apps })
find_apps-All_example = find_apps-All packed answering_page (codes "DIF") knowing apps_found
