-- ===== src/Store/Integrations.antt =====
-- The events, integrations and bindings of internal/store/sqlite.go.
use srv.Base.Lists.{count_where, delete_where, exists_where, find_where}
use srv.Base.{none, suc, ◌||◌, string_eq, ◌&&◌, ◌∷◌, if◌then◌else◌, some, ℕ, ◌==◌, Bool, String}
use srv.Store.Requests.{time_string}
use srv.Store.Tables.{Binding}
use srv.Model.{Integration, Time}
use srv.Store.Session.{Action, insert, query, query_row}

-- AUTOINCREMENT: an ID is never used again.
unfoldable pub record_event : String → Time → String → String → String → Time → Action (Unit {0})
unfolding insert time_string
record_event instance_id created kind message payload now = insert λ t. some (record t {
  events =
      (record {
        id = t.next_event;
        instance_id = instance_id;
        created_at = time_string now created;
        kind = kind;
        message = message;
        payload = payload;
      })
      ∷ t.events;
  next_event = suc t.next_event;
})

abbrev pub stored_integration : Time → Integration → Integration
stored_integration now i = record i {
  created_at = time_string now i.created_at;
  updated_at = time_string now i.updated_at;
}

-- PRIMARY KEY(id), UNIQUE(name)
unfoldable pub create_integration : Integration → Time → Action (Unit {0})
unfolding insert time_string
create_integration i now = insert λ t.
    if exists_where (λ (q : Integration). q.id == i.id || q.name == i.name) t.integrations
    then none
    else some (record t { integrations = stored_integration now i ∷ t.integrations })

unfoldable pub get_integration_by_name : String → Action Integration
unfolding query_row
get_integration_by_name name = query_row (λ t. find_where (λ i. i.name == name) t.integrations)

unfoldable pub delete_integration : String → Action (Unit {0})
unfolding insert
delete_integration name =
    insert λ t. some (record t { integrations = delete_where (λ i. i.name == name) t.integrations })

unfoldable pub count_integration_bindings : String → Action ℕ
unfolding query
count_integration_bindings id =
    query (λ t. count_where (λ (b : Binding). b.integration_id == id) t.bindings)

abbrev pub same_binding : Binding → Binding → Bool
same_binding b q = q.instance_id == b.instance_id && q.integration_id == b.integration_id

-- INSERT OR IGNORE: PRIMARY KEY(instance_id, integration_id)
unfoldable pub bind_integration_to_instance : Binding → Action (Unit {0})
unfolding insert
bind_integration_to_instance b = insert λ t.
    if exists_where (same_binding b) t.bindings
    then some t
    else some (record t { bindings = b ∷ t.bindings })

unfoldable pub unbind_integration_from_instance : Binding → Action (Unit {0})
unfolding insert
unbind_integration_from_instance b =
    insert λ t. some (record t { bindings = delete_where (same_binding b) t.bindings })
