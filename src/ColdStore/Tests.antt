-- ===== src/ColdStore/Tests.antt =====
-- A request for the state of one object.
use srv.ColdStore.Life.{refines_life, life_of, Leads}
use srv.ColdStore.Deletion.{deleted_for_good}
use srv.ColdStore.Permanence.{dropped, immutable_until_deleted, stored, removed, Call, perform}
use srv.Effect.{write, read, ask, check, done, Run}
use srv.ColdStore.Server.{
  create_deletion_record, recover_each, stat, recover_stages, of_manifest, put, manifest,
  check_children, find_object, has_object, Space, delete_present, is_fenced, Entry, delete,
}
use srv.ColdStore.{validate_object, Object, Request, bare, is_sha256, validate_request}
use srv.Base.Int.{pos, ltb_ℤ}
use srv.ColdStore.Shape.{validate_request_shape, compressible}
use srv.Base.{
  [], false, ◌∷◌, some, List, ◌⊎◌, not, ◌&&◌, string_eq, ◌||◌, true, ◌==◌, Bool, ◌≡◌, String, refl,
}

-- stands for the parser of UUIDs
abbrev short_id : String → Bool
short_id s = s == "a"

abbrev stat_request : Request
stat_request = record {
  operation = "stat";
  object = record { id = "a"; parent = ""; uuid = ""; size = pos 0; sha256 = "" };
  parent = "";
  compression = "";
}

validate_request_shape_example :
    (short_id stat_request.object.id ≡ true)
    × ((stat_request.compression == ""
          || (stat_request.compression == "zstd" && compressible stat_request))
        ≡ true)
    × ((stat_request.parent == "" || not (stat_request.parent == stat_request.object.id)) ≡ true)
    × ((bare stat_request.object ≡ true)
        ⊎ ((stat_request.operation == "put") ≡ true)
          × (short_id stat_request.object.uuid ≡ true)
          × (ltb_ℤ (pos 0) stat_request.object.size ≡ true)
          × (is_sha256 stat_request.object.sha256 ≡ true)
          × ((stat_request.object.parent == ""
                || not (stat_request.object.parent == stat_request.object.id))
              ≡ true))
unfolding validate_request
validate_request_shape_example = validate_request_shape short_id stat_request refl

abbrev zeros : String
zeros = "0000000000000000000000000000000000000000000000000000000000000000"

abbrev small_object : Object
small_object = record { id = "a"; parent = ""; uuid = "a"; size = pos 1; sha256 = zeros }

abbrev one_entry : Entry
one_entry = record { id = "a"; manifest = some small_object }

abbrev one_object : Run Space
one_object = record {
  state = record { objects = one_entry ∷ []; deleted = []; doomed = [] };
  answers = [];
}

abbrev some_calls : List Call
some_calls = removed "a" ∷ stored small_object ∷ dropped ("a" ∷ []) ∷ []

immutable_until_deleted_example :
    let end = (perform short_id some_calls one_object).state in
    (is_fenced "a" end ≡ true) ⊎ (find_object "a" end ≡ some one_entry)
immutable_until_deleted_example =
    immutable_until_deleted short_id "a" one_entry some_calls one_object refl

deletes_object : (delete short_id "a" one_object).0 ≡ done tt
unfolding delete delete_present check_children manifest of_manifest recover_stages recover_each
    create_deletion_record srv.Effect.◌>>=◌ check ask read write validate_object
deletes_object = refl

deleted_for_good_example :
    let end = perform short_id some_calls (delete short_id "a" one_object).1 in
    (is_fenced "a" end.state ≡ true)
    × (has_object "a" end.state ≡ false)
    × ¬ ((put short_id small_object end).0 ≡ done tt)
    × ¬ ((stat short_id "a" end).0 ≡ done small_object)
deleted_for_good_example =
    deleted_for_good short_id small_object small_object some_calls one_object deletes_object

refines_life_example :
    Leads
      (life_of "a" one_object.state)
      (life_of "a" (perform short_id some_calls one_object).state)
refines_life_example = refines_life short_id "a" some_calls one_object
