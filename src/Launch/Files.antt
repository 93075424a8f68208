-- ===== src/Launch/Files.antt =====
-- The directory of receipts: what a write does to the files, and what a read says of them.
use srv.Base.Keys.{find-exists, find-holds, exists-find}
use srv.Effect.{read, write, check}
use srv.Base.Lists.{exists_where, update_where}
use srv.Effect.Keeps.{
  Triple-read, Triple-stop, Triple-give, Triple-write, Reads-check, Triple-reads, Triple-weaken,
  Triple-bind, Triple,
}
use srv.Launch.{
  same_place, place_eq, place_iff, Place, place_for, refuse, Error, check_receipt, read_receipt,
  same_attempt, world, decode, in_file, Attempt, lookup, put_file, Receipt, Runner, write_receipt,
  File,
}
use srv.Base.{
  false, none, some, refl, [], string_eq, text_iff, inr, inl, some, ◌&&◌, ◌∷◌, Bool-cases, arith,
  ◌==◌, Option, if◌then◌else◌, true, Bool, ◌≡◌, List, String,
}

pub place_refl : (k : Place) → same_place k k ≡ true
place_refl k = (place_iff k k).1 refl

abbrev pub stored : Place → List File → Bool
stored k files = exists_where (in_file k) files

update_stored :
    (f : File) (k : Place) (files : List File)
    → stored k files ≡ true
    → stored k (update_where (in_file f.place) (λ _. f) files) ≡ true
update_stored f k [] h = h
update_stored f k (g ∷ files) h = ground (
  arith,
  place_iff g.place k,
  place_iff g.place f.place,
  place_iff f.place k,
  update_stored f k files,
)

pub put-stored :
    (f : File) (k : Place) (files : List File)
    → stored k files ≡ true
    → stored k (put_file f files) ≡ true
put-stored f k files h = ground (arith, update_stored f k files)

pub put-stored_self : (f : File) (files : List File) → stored f.place (put_file f files) ≡ true
put-stored_self f files = elim (Bool-cases (stored f.place files)) [
  | inl e ↦ rw e (update_stored f f.place files e)
  | inr e ↦ rw (e, place_refl f.place) refl
]

find_update :
    (f : File) (k : Place) (files : List File)
    → lookup k (update_where (in_file f.place) (λ _. f) files)
      ≡ (if f.place == k && stored k files then some f else lookup k files)
find_update f k [] = ground arith
find_update f k (g ∷ files) = ground (
  arith,
  place_iff g.place k,
  place_iff g.place f.place,
  place_iff f.place k,
  find_update f k files,
)

pub lookup-put :
    (f : File) (k : Place) (files : List File)
    → lookup k (put_file f files) ≡ (if f.place == k then some f else lookup k files)
lookup-put f k files =
    ground (arith, find_update f k files, place_iff f.place k, exists-find (in_file k) files)

module _ (key : String → String) where
  abbrev pub file_of : Receipt → File
  file_of r = record { place = place_for key r.attempted; receipt = r }

  abbrev pub written : Receipt → Runner → Runner
  written r s = record s { files = put_file (file_of r) s.files }

  pub write_receipt-Triple :
      {P Q F : Runner → Type 0} (r : Receipt)
      → ((s : Runner) → P s → F s)
      → ((s : Runner) → P s → Q (written r s))
      → ((s : Runner) → Q s → F s)
      → Triple P (write_receipt key r) (λ _. Q) F
  unfolding write_receipt
  write_receipt-Triple r pf pq qf =
      Triple-bind (check world) _
        (Triple-weaken (check world) (Triple-reads (check world) (Reads-check world)) (λ s p. p)
          (λ _ s p. p) pf)
        λ _. Triple-bind (write (written r)) _ (Triple-write (written r) pq) λ _.
          Triple-weaken (check world) (Triple-reads (check world) (Reads-check world)) (λ s p. p)
            (λ _ s p. p) qf

  refuse-Triple :
      {P : Runner → Type 0} (o : Option Error) → Triple P (refuse o) (λ _ s. P s × (o ≡ none)) P
  refuse-Triple none = Triple-give tt λ s p. (p, refl)
  refuse-Triple (some e) = Triple-stop e λ s p. p

  -- what a read that returns says of the files
  abbrev pub Found : Attempt → Option Receipt → Runner → Type 0
  Found q none s = stored (place_for key q) s.files ≡ false
  Found q (some r) s = (lookup (place_for key q) s.files ≡ some (file_of r)) × (r.attempted ≡ q)

  same_attempt-eq : (a b : Attempt) → same_attempt a b ≡ true → a ≡ b
  same_attempt-eq a b h = ground (
    arith,
    text_iff a.name b.name,
    text_iff a.instance_id b.instance_id,
    text_iff a.request_id b.request_id,
    text_iff a.host_boot_id b.host_boot_id,
  )

  checked : (q : Attempt) (r : Receipt) → check_receipt q r ≡ none → r.attempted ≡ q
  unfolding check_receipt
  checked q r h = same_attempt-eq r.attempted q (ground arith)

  found_file :
      (q : Attempt) (f : File) (files : List File)
      → lookup (place_for key q) files ≡ some f
      → check_receipt q f.receipt ≡ none
      → (lookup (place_for key q) files ≡ some (file_of f.receipt)) × (f.receipt.attempted ≡ q)
  found_file q f files e c =
      let same = checked q f.receipt c in
      let name =
        (place_iff f.place (place_for key q)).0
          (find-holds (in_file (place_for key q)) files f e) in
      (ground (arith, same, name), same)

  decode-Triple :
      {P : Runner → Type 0} (q : Attempt) (o : Option File)
      → Triple
          (λ s. P s × (lookup (place_for key q) s.files ≡ o))
          (decode key q o)
          (λ o s. P s × Found q o s)
          P
  decode-Triple q none =
      Triple-give none λ s p. (p.0, find-exists (in_file (place_for key q)) s.files p.1)
  decode-Triple {P} q (some f) =
      Triple-bind (check world) _
        (Triple-weaken (check world) (Triple-reads (check world) (Reads-check world)) (λ s p. p)
          (λ _ s p. p) (λ s p. p.0))
        λ _.
          Triple-bind (refuse (check_receipt q f.receipt)) _
            (Triple-weaken _ (refuse-Triple (check_receipt q f.receipt)) (λ s p. p) (λ _ s p. p)
              (λ s p. p.0))
            λ _. Triple-give (some f.receipt) λ s p. (p.0.0, found_file q f s.files p.0.1 p.1)

  pub read_receipt-Triple :
      {P : Runner → Type 0} (q : Attempt)
      → Triple P (read_receipt key q) (λ o s. P s × Found q o s) P
  unfolding read_receipt
  read_receipt-Triple q =
      Triple-bind (check world) _ (Triple-reads (check world) (Reads-check world)) λ _.
        Triple-bind (read (λ s. lookup (place_for key q) s.files)) _
          (Triple-read (λ s. lookup (place_for key q) s.files) λ s p. (p, refl)) (decode-Triple q)
