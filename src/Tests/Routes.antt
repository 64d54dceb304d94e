-- ===== src/Tests/Routes.antt =====
-- Concrete runs of the routes of the facade and of the list of tasks.
use hermes_link_server.Prelude.{
  take, Text, text, text_eq, ◌≡◌, refl, Option, none, some, List, [], ◌∷◌, is_profile_id,
}
use hermes_link_server.Json.{Json, ℤ, pos, negsuc}
use hermes_link_server.Adapter.Headers.{RequestHeaders}
use hermes_link_server.Adapter.Paths.{match_profile}
use hermes_link_server.Bridge.Access.{Environment}
use hermes_link_server.Bridge.Models.{model_config_profile_id, id_of_match}
use hermes_link_server.Bridge.Routes.{tasks, route_get}
use hermes_link_server.Bridge.Routes.Laws.{IsBoundedRoute, route_get-IsBoundedRoute}
use hermes_link_server.Bridge.Tasks.{TaskRow, Task, Query, read_tasks}

abbrev as_is : Text → Text
as_is s = s

abbrev no_repr : Json → Text
no_repr v = []

abbrev host : Environment
host = record {
  agent_token = text "agent-token";
  mobile_token = [];
  profile_ids = text "work" ∷ [];
  profile_entries = none;
}

abbrev no_query : Text → Text → List Text
no_query query name = []

abbrev some_int : Text → Option ℤ
some_int s = some (pos 9000)

abbrev models_path : Text
models_path = text "/hermes-link/v1/profiles/work/models/config"

abbrev no_headers : RequestHeaders
no_headers = record {
  authorization = none;
  content_type = none;
  last_event_id = none;
  session_id = none;
}

models_run : model_config_profile_id as_is as_is host no_repr models_path ≡ some (text "work")
unfolding model_config_profile_id match_profile id_of_match is_profile_id text text_eq
models_run = refl

tasks_run :
    route_get as_is as_is host no_repr no_query some_int (text "/hermes-link/v1/tasks") []
    ≡ tasks 500
unfolding route_get model_config_profile_id match_profile id_of_match text text_eq
tasks_run = refl

route_get-IsBoundedRoute_example :
    IsBoundedRoute as_is as_is host no_repr no_query some_int
      (route_get as_is as_is host no_repr no_query some_int (text "/hermes-link/v1/tasks") [])
route_get-IsBoundedRoute_example =
    route_get-IsBoundedRoute as_is as_is host no_repr no_query some_int
      (text "/hermes-link/v1/tasks") []

abbrev row : Text → Text → Option ℤ → TaskRow
row id status priority = record {
  id = id;
  title = text "t";
  assignee = none;
  status = status;
  priority = priority;
  created_at = some (pos 1);
  started_at = none;
  completed_at = none;
}

abbrev ids : List Task → List Text
ids [] = []
ids (t ∷ ts) = t.id ∷ ids ts

-- An answer of SQLite to the query.
abbrev sqlite : Query → List TaskRow
sqlite q = take q.limit (
    row (text "d") (text "todo") (some (pos 2))
    ∷ row (text "c") (text "todo") (some (negsuc 0))
    ∷ [])

read_run : ids (read_tasks as_is sqlite 2) ≡ text "d" ∷ text "c" ∷ []
unfolding read_tasks text text_eq
read_run = refl
