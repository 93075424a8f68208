-- ===== src/ColdStore/Server.antt =====
-- internal/coldstore/server.go and discard.go: the objects of the store, the permanent records of
-- deletion, and the directories that a deletion renames objects to. The caller holds the lock of the
-- store. Directories of unfinished uploads are left out: nothing reads them, and recovery removes
-- them.
use srv.Store.Cleanup.{is_some}
use srv.Base.Lists.{exists_where, find_where, delete_where}
use srv.ColdStore.{validate_object, Object}
use srv.Base.{
  ◌!=◌, [], false, string_eq, ◌&&◌, none, not, true, ◌==◌, ◌∷◌, Bool, Option, if◌then◌else◌, some,
  List, String,
}
use srv.Effect.{Op, give, stop, stop_if, read, write, check, attempt, ◌>>=◌, ◌>>◌}

-- an entry of the directory of objects; `none` is a manifest that cannot be read
pub record Entry : Type 0 where
  pub id : String
  pub manifest : Option Object

pub record Space : Type 0 where
  pub objects : List Entry
  pub deleted : List String
  pub doomed : List String  -- .stage-delete-<id>

pub data Error : Type 0 where
  world is_deleted present missing invalid foreign referenced bad_set : Error

abbrev pub Step : Type 0 → Type 0
Step A = Op Space Error A

abbrev pub names : String → Entry → Bool
names id e = e.id == id

abbrev pub is_id : String → String → Bool
is_id id x = x == id

abbrev pub find_object : String → Space → Option Entry
find_object id s = find_where (names id) s.objects

abbrev pub has_object : String → Space → Bool
has_object id s = exists_where (names id) s.objects

abbrev pub is_fenced : String → Space → Bool
is_fenced id s = exists_where (is_id id) s.deleted

-- O_CREATE|O_EXCL: an existing record stays
abbrev pub fence : String → Space → Space
fence id s = record s { deleted = if is_fenced id s then s.deleted else id ∷ s.deleted }

-- rename to the directory that recovery removes
abbrev pub doom : String → Space → Space
doom id s = record s { objects = delete_where (names id) s.objects; doomed = id ∷ s.doomed }

abbrev pub publish : Object → Space → Space
publish o s = record s { objects = (record { id = o.id; manifest = some o }) ∷ s.objects }

abbrev pub among : List String → String → Bool
among ids id = exists_where (is_id id) ids

abbrev pub is_nil : List String → Bool
is_nil [] = true
is_nil (_ ∷ _) = false

module _ (valid_id : String → Bool) where
  -- deletionRecord(id, true): the record is there when it returns, and may be when it fails
  unfoldable pub create_deletion_record : String → Step (Unit {0})
  create_deletion_record id = do check world; write (fence id); check world

  -- deletionRecord(id, false)
  unfoldable pub deletion_record : String → Step Bool
  deletion_record id = do check world; read (is_fenced id)

  unfoldable pub of_manifest : String → Option Object → Step Object
  of_manifest id none = stop invalid
  of_manifest id (some o) = do
    stop_if (not (validate_object valid_id o)) invalid
    stop_if (o.id != id) invalid
    give o

  abbrev pub of_entry : String → Option Entry → Step Object
  of_entry id none = stop missing
  of_entry id (some e) = of_manifest id e.manifest

  unfoldable pub manifest : String → Step Object
  manifest id = do check world; e ← read (find_object id); of_entry id e

  -- verifyDiskIdentity is a call of the world.
  unfoldable pub stat : String → Step Object
  stat id = do
    gone ← deletion_record id
    stop_if gone is_deleted
    o ← manifest id
    check world
    give o

  abbrev pub check_parent : String → Step (Unit {0})
  check_parent parent = if parent == "" then give tt else (do o ← stat parent; give tt)

  -- The upload into a private directory is a call of the world; after the rename only a sync is
  -- left, whose failure takes nothing back.
  unfoldable pub put : Object → Step (Unit {0})
  put o = do
    gone ← deletion_record o.id
    stop_if gone is_deleted
    there ← read (has_object o.id)
    stop_if there present
    check_parent o.parent
    check world
    write (publish o)
    check world

  -- whether the parent is there to send a difference to
  unfoldable pub get : String → String → Step Bool
  get id parent = do
    o ← stat id
    found ← attempt (if parent == "" then stop missing else stat parent)
    check world
    give (is_some found)

  -- recoverStages, for the objects that a deletion renamed
  unfoldable pub recover_each : List String → Step (Unit {0})
  recover_each [] = give tt
  recover_each (id ∷ ids) = do
    create_deletion_record id
    check world
    write (λ s. record s { doomed = delete_where (is_id id) s.doomed })
    recover_each ids

  unfoldable pub recover_stages : Step (Unit {0})
  recover_stages = do
    check world
    ids ← read (λ s. s.doomed)
    check world
    recover_each ids
    check world

  -- withServer, with the store open and locked: what was renamed is cleaned up before anything else
  abbrev pub within_server : {A : Type 0} → Step A → Step A
  within_server m = recover_stages >> m

  -- no object has `id` as its parent, and every manifest can be read
  unfoldable pub check_children : String → List Entry → Step (Unit {0})
  check_children id [] = give tt
  check_children id (e ∷ es) = do
    stop_if (not (valid_id e.id)) foreign
    o ← manifest e.id
    stop_if (o.parent == id) referenced
    check_children id es

  unfoldable pub delete_present : String → Step (Unit {0})
  delete_present id = do
    o ← manifest id
    check world
    es ← read (λ s. s.objects)
    check_children id es
    check world
    create_deletion_record id
    check world
    write (doom id)
    recover_stages

  unfoldable pub delete : String → Step (Unit {0})
  delete id = do
    recover_stages
    check world
    there ← read (has_object id)
    if there then delete_present id else create_deletion_record id

  abbrev pub all_unique : List String → Bool
  all_unique [] = true
  all_unique (id ∷ ids) = (valid_id id && not (among ids id)) && all_unique ids

  -- what is kept can be read and depends on nothing in the set; what is discarded is well placed
  unfoldable pub check_retained : List String → List Entry → Step (Unit {0})
  check_retained ids [] = give tt
  check_retained ids (e ∷ es) = do
    stop_if (not (valid_id e.id)) foreign
    if among ids e.id
        then check world
        else (do o ← manifest e.id; stop_if (among ids o.parent) referenced)
    check_retained ids es

  unfoldable pub fence_all : List String → Step (Unit {0})
  fence_all [] = give tt
  fence_all (id ∷ ids) = do create_deletion_record id; fence_all ids

  unfoldable pub doom_all : List String → List Entry → Step (Unit {0})
  doom_all ids [] = give tt
  doom_all ids (e ∷ es) = do
    if among ids e.id then (do check world; write (doom e.id)) else give tt
    doom_all ids es

  unfoldable pub discard_objects : List String → Step (Unit {0})
  discard_objects ids = do
    stop_if (is_nil ids) bad_set
    stop_if (not (all_unique ids)) bad_set
    recover_stages  -- withServer
    check world
    es ← read (λ s. s.objects)
    check_retained ids es
    fence_all ids
    doom_all ids es
    recover_stages
