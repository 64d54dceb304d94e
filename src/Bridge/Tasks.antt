-- ===== src/Bridge/Tasks.antt =====
-- src/hermes_link/integrations/hermes_agent/bridge.py: `_read_tasks`. What SQLite gives for the query
-- is a parameter, and so is the redaction.
use hermes_link_server.Prelude.{ℕ, Text, text, Option, none, some, List, [], ◌∷◌, take}
use hermes_link_server.Json.{ℤ, pos}

-- A row of the table `tasks`. NULL in a column is none; the id, the title and the status are
-- taken to be there.
pub record TaskRow : Type 0 where
  pub id : Text
  pub title : Text
  pub assignee : Option Text
  pub status : Text
  pub priority : Option ℤ
  pub created_at : Option ℤ
  pub started_at : Option ℤ
  pub completed_at : Option ℤ

-- The dictionary of a task.
pub record Task : Type 0 where
  pub id : Text
  pub title : Text
  pub assignee : Text
  pub status : Text
  pub priority : ℤ
  pub created_at : ℤ
  pub started_at : ℤ
  pub completed_at : ℤ

-- The direction of a key of the order.
pub data Direction : Type 0 where
  descending ascending : Direction

-- A SELECT from the table: its columns, `WHERE column != value`, the keys of its order, its limit.
pub record Query : Type 0 where
  pub columns : List Text
  pub differs : Text × Text
  pub order : List (Text × Direction)
  pub limit : ℕ

-- the query of `_read_tasks`
unfoldable pub tasks_query : ℕ → Query
unfolding text
tasks_query limit = record {
  columns =
      text "id"
      ∷ text "title"
      ∷ text "assignee"
      ∷ text "status"
      ∷ text "priority"
      ∷ text "created_at"
      ∷ text "started_at"
      ∷ text "completed_at"
      ∷ [];
  differs = (text "status", text "archived");
  order = (text "priority", descending) ∷ (text "created_at", ascending) ∷ [];
  limit = limit;
}

abbrev pub int_or_zero : Option ℤ → ℤ
int_or_zero none = pos 0
int_or_zero (some n) = n

abbrev text_or_empty : Option Text → Text
text_or_empty none = []
text_or_empty (some s) = s

module _ (redact : Text → Text) where
  unfoldable pub task_of : TaskRow → Task
  task_of r = record {
    id = r.id;
    title = take 500 (redact r.title);
    assignee = take 100 (redact (text_or_empty r.assignee));
    status = r.status;
    priority = int_or_zero r.priority;
    created_at = int_or_zero r.created_at;
    started_at = int_or_zero r.started_at;
    completed_at = int_or_zero r.completed_at;
  }

  unfoldable pub tasks_of : List TaskRow → List Task
  unfolding task_of
  tasks_of [] = []
  tasks_of (r ∷ rs) = task_of r ∷ tasks_of rs

  -- `_read_tasks`, where the database file exists; SQLite gives the rows of a query
  unfoldable pub read_tasks : (Query → List TaskRow) → ℕ → List Task
  unfolding tasks_query tasks_of
  read_tasks execute limit = tasks_of (execute (tasks_query limit))
