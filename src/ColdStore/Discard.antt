-- ===== src/ColdStore/Discard.antt =====
-- What DiscardObjects of internal/coldstore/discard.go keeps: it records every deletion of its set
-- before it renames the first object.
use srv.Effect.{give, read, write, check, ◌>>◌, stop_if}
use srv.Effect.Keeps.{
  Keeps-Reads, Triple-write, Triple-if, Keeps-read, Keeps-check, Triple-weaken, Keeps-stop_if,
  Triple-bind, Keeps-bind, Keeps-give, Triple-give, Keeps, Triple,
}
use srv.ColdStore.Discipline.{
  recover-Keeps, among-fenced, retained-Reads, create-Fenced, fence-fenced, all_fenced, Survives,
}
use srv.Base.{arith, and_right, refl, [], not, if◌then◌else◌, ◌∷◌, true, ◌≡◌, List, Bool, String}
use srv.ColdStore.Server.{
  recover_stages, check_retained, doom, all_unique, world, among, bad_set, create_deletion_record,
  is_nil, Entry, discard_objects, doom_all, fence_all, is_fenced, Space,
}

-- A recorded deletion survives too.
Survives-and :
    {P : Space → Type 0} (x : String) → Survives P → Survives (λ s. P s × (is_fenced x s ≡ true))
Survives-and x v = record {
  fenced = λ id s p. (v.fenced id s p.0, fence-fenced id x s p.1);
  cleaned = λ id s p. (v.cleaned id s p.0, p.1);
  doomed = λ id s f p. (v.doomed id s f p.0, p.1);
  published = λ o s h f p. (v.published o s h f p.0, p.1);
}

module _ (valid_id : String → Bool) where
  abbrev Recorded : (Space → Type 0) → List String → Space → Type 0
  Recorded P ids s = P s × (all_fenced ids s ≡ true)

  fence_all-Recorded :
      (ids : List String) {P : Space → Type 0}
      → Survives P
      → Triple P (fence_all valid_id ids) (λ _. Recorded P ids) P
  unfolding fence_all
  fence_all-Recorded [] v = Triple-give tt λ s p. (p, refl)
  fence_all-Recorded (id ∷ ids) {P} v =
      Triple-bind (create_deletion_record valid_id id) _ (create-Fenced valid_id v id) λ _.
        Triple-weaken (fence_all valid_id ids) (fence_all-Recorded ids (Survives-and id v))
          (λ s p. p) (λ _ s p. (p.0.0, rw (p.0.1) p.1)) (λ s p. p.0)

  doom-all_fenced :
      (id : String) (ids : List String) (s : Space)
      → all_fenced ids s ≡ true
      → all_fenced ids (doom id s) ≡ true
  doom-all_fenced id [] s h = refl
  doom-all_fenced id (x ∷ ids) s h =
      ground (arith, h, doom-all_fenced id ids s (and_right (is_fenced x s) (all_fenced ids s) h))

  doom_all-Keeps :
      {P : Space → Type 0} (ids : List String) (es : List Entry)
      → Survives P
      → Keeps (Recorded P ids) (doom_all valid_id ids es)
  unfolding doom_all
  doom_all-Keeps ids [] v = Keeps-give tt
  doom_all-Keeps ids (e ∷ es) v =
      Keeps-bind (if among ids e.id then (do check world; write (doom e.id)) else give tt) _
        (Triple-if (among ids e.id) (do check world; write (doom e.id)) (give tt)
          (λ m. Keeps-bind (check world) _ (Keeps-check world) λ _. Triple-write (doom e.id) λ s p.
            (v.doomed e.id s (among-fenced ids e.id s p.1 m) p.0, doom-all_fenced e.id ids s p.1))
          (λ _. Keeps-give tt))
        λ _. doom_all-Keeps ids es v

  pub discard_objects-Keeps :
      {P : Space → Type 0} (ids : List String) → Survives P → Keeps P (discard_objects valid_id ids)
  unfolding discard_objects
  discard_objects-Keeps ids v = Keeps-bind (stop_if (is_nil ids) bad_set) _ (Keeps-stop_if _ _) λ _.
      Keeps-bind (stop_if (not (all_unique valid_id ids)) bad_set) _ (Keeps-stop_if _ _) λ _.
        Keeps-bind (recover_stages valid_id) _ (recover-Keeps valid_id v) λ _.
          Keeps-bind (check world) _ (Keeps-check world) λ _.
            Keeps-bind (read (λ s. s.objects)) _ (Keeps-read _) λ es.
              Keeps-bind (check_retained valid_id ids es) _
                (Keeps-Reads (check_retained valid_id ids es) (retained-Reads valid_id ids es))
                λ _. Triple-bind (fence_all valid_id ids) _ (fence_all-Recorded ids v) λ _.
                  Triple-bind (doom_all valid_id ids es) _
                    (Triple-weaken (doom_all valid_id ids es) (doom_all-Keeps ids es v) (λ s p. p)
                      (λ _ s p. p.0) (λ s p. p.0))
                    λ _. recover-Keeps valid_id v
