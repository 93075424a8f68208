-- ===== src/ColdStore/Shape.antt =====
-- internal/coldstore/protocol.go: what a request that passes the checks looks like.
use srv.Base.Int.{pos, ltb_ℤ}
use srv.ColdStore.{is_sha256, bare, Request, validate_request}
use srv.Base.{arith, ◌⊎◌, not, string_eq, ◌&&◌, true, ◌||◌, ◌==◌, ◌≡◌, Bool, String}

abbrev pub compressible : Request → Bool
compressible r = r.operation == "put" || r.operation == "get"

-- A request that passes has a valid object ID, is compressed only with zstd and only when it
-- transfers an object, and never names the object as its own parent; only `put` describes an
-- object, whose parent is not the object itself and whose size is positive.
pub validate_request_shape :
    (valid_id : String → Bool) (r : Request)
    → validate_request valid_id r ≡ true
    → (valid_id r.object.id ≡ true)
      × ((r.compression == "" || (r.compression == "zstd" && compressible r)) ≡ true)
      × ((r.parent == "" || not (r.parent == r.object.id)) ≡ true)
      × ((bare r.object ≡ true)
          ⊎ ((r.operation == "put") ≡ true)
            × (valid_id r.object.uuid ≡ true)
            × (ltb_ℤ (pos 0) r.object.size ≡ true)
            × (is_sha256 r.object.sha256 ≡ true)
            × ((r.object.parent == "" || not (r.object.parent == r.object.id)) ≡ true))
unfolding validate_request
validate_request_shape valid_id r h = ground arith
