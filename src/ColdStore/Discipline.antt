-- ===== src/ColdStore/Discipline.antt =====
-- What every operation of internal/coldstore/server.go and discard.go keeps, from its writes.
use srv.Effect.{◌>>=◌, read, check, stop_if, write}
use srv.ColdStore.{Object}
use srv.Base.Lists.{delete_where}
use srv.Effect.Keeps.{
  Keeps-read, Reads-stop_if, Triple-read, Keeps-check, Reads-check, Triple-give, Reads-bind,
  Triple-stop, Keeps-Reads, Reads-give, Triple-reads, Triple-write, Keeps-bind, Reads-stop, Triple,
  Triple-bind, Triple-weaken, keeps_rules, reads_rules, Keeps, Reads,
}
use srv.ColdStore.Server.{
  referenced, present, foreign, is_deleted, missing, publish, world, doom, has_object, invalid,
  of_entry, Entry, among, check_parent, is_id, Error, Step, check_children, check_retained,
  create_deletion_record, delete, delete_present, deletion_record, get, manifest, of_manifest, put,
  recover_each, recover_stages, stat, fence, is_fenced, Space,
}
use srv.Base.{
  if◌then◌else◌, string_eq, and_right, refl, and_left, none, not, text_refl, ◌∙◌, [], inr, some,
  text_iff, inl, ◌&&◌, ◌==◌, Bool-cases, arith, false, ◌∷◌, Option, true, Bool, ◌≡◌, List, String,
}

module _ (valid_id : String → Bool) where
  of_manifest-Reads : (id : String) (m : Option Object) → Reads (of_manifest valid_id id m)
  unfolding of_manifest
  of_manifest-Reads id none = Reads-stop invalid
  of_manifest-Reads id (some o) = search reads_rules depth 9

  of_entry-Reads : (id : String) (e : Option Entry) → Reads (of_entry valid_id id e)
  of_entry-Reads id none = Reads-stop missing
  of_entry-Reads id (some e) = of_manifest-Reads id e.manifest

  pub manifest-Reads : (id : String) → Reads (manifest valid_id id)
  unfolding manifest
  manifest-Reads id = search (reads_rules, of_entry-Reads) depth 9

  deletion_record-Reads : (id : String) → Reads (deletion_record valid_id id)
  unfolding deletion_record
  deletion_record-Reads id = search reads_rules depth 9

  pub stat-Reads : (id : String) → Reads (stat valid_id id)
  unfolding stat
  stat-Reads id = search (reads_rules, manifest-Reads, deletion_record-Reads) depth 9

  pub get-Reads : (id parent : String) → Reads (get valid_id id parent)
  unfolding get
  get-Reads id parent = search (reads_rules, stat-Reads) depth 12

  parent-Reads : (parent : String) → Reads (check_parent valid_id parent)
  parent-Reads parent = search (reads_rules, stat-Reads) depth 9

  pub children-Reads : (id : String) (es : List Entry) → Reads (check_children valid_id id es)
  unfolding check_children
  children-Reads id [] = Reads-give tt
  children-Reads id (e ∷ es) =
      Reads-bind (stop_if (not (valid_id e.id)) foreign) _ (Reads-stop_if _ _) λ _.
        Reads-bind (manifest valid_id e.id) _ (manifest-Reads e.id) λ o.
          Reads-bind (stop_if (o.parent == id) referenced) _ (Reads-stop_if _ _)
            λ _. children-Reads id es

  pub retained-Reads :
      (ids : List String) (es : List Entry) → Reads (check_retained valid_id ids es)
  unfolding check_retained
  retained-Reads ids [] = Reads-give tt
  retained-Reads ids (e ∷ es) =
      Reads-bind (stop_if (not (valid_id e.id)) foreign) _ (Reads-stop_if _ _) λ _.
        Reads-bind
          (if among ids e.id
            then check world
            else (do o ← manifest valid_id e.id; stop_if (among ids o.parent) referenced))
          _ (search (reads_rules, manifest-Reads) depth 9) λ _. retained-Reads ids es

abbrev pub all_fenced : List String → Space → Bool
all_fenced [] s = true
all_fenced (id ∷ ids) s = is_fenced id s && all_fenced ids s

pub fence-fenced_self : (id : String) (s : Space) → is_fenced id (fence id s) ≡ true
fence-fenced_self id s = elim (Bool-cases (is_fenced id s)) [
  | inl e ↦ rw (e, e) refl
  | inr e ↦ rw (e, text_refl id) refl
]

pub fence-fenced :
    (id x : String) (s : Space) → is_fenced x s ≡ true → is_fenced x (fence id s) ≡ true
fence-fenced id x s h = ground (arith, h)

pub among-fenced :
    (ids : List String) (x : String) (s : Space)
    → all_fenced ids s ≡ true
    → among ids x ≡ true
    → is_fenced x s ≡ true
among-fenced [] x s h m = absurd (ground (arith, m))
among-fenced (id ∷ ids) x s h m = elim (Bool-cases (id == x)) [
  | inl e ↦ rw (← (text_iff id x).0 e) (and_left _ _ h)
  | inr e ↦ among-fenced ids x s (and_right _ _ h) (rw e at m)
]

-- A predicate that survives a record of deletion, the clean-up of a renamed object, the rename of a
-- recorded object, and the publication of an object that is neither there nor recorded.
pub record Survives (P : Space → Type 0) : Type 0 where
  pub fenced : (id : String) (s : Space) → P s → P (fence id s)
  pub cleaned :
      (id : String) (s : Space) → P s → P (record s { doomed = delete_where (is_id id) s.doomed })
  pub doomed : (id : String) (s : Space) → is_fenced id s ≡ true → P s → P (doom id s)
  pub published :
      (o : Object) (s : Space)
      → has_object o.id s ≡ false
      → is_fenced o.id s ≡ false
      → P s
      → P (publish o s)

module _ (valid_id : String → Bool) {P : Space → Type 0} (v : Survives P) where
  reads :
      {A : Type 0} {Q : Space → Type 0} (m : Step A)
      → ((s : Space) → Q s → P s)
      → Reads m
      → Triple Q m (λ _. Q) P
  reads m q r = Triple-weaken m (Triple-reads m r) (λ s p. p) (λ _ s p. p) q

  pub create-Fenced :
      (id : String)
      → Triple P (create_deletion_record valid_id id) (λ _ s. P s × (is_fenced id s ≡ true)) P
  unfolding create_deletion_record
  create-Fenced id =
      Triple-bind (check world) _ (Triple-reads (check world) (Reads-check world)) λ _.
        Triple-bind (write (fence id)) _
          (Triple-write (fence id) λ s p. (v.fenced id s p, fence-fenced_self id s))
          λ _. reads (check world) (λ s p. p.0) (Reads-check world)

  create-Keeps : (id : String) → Keeps P (create_deletion_record valid_id id)
  create-Keeps id = Triple-weaken _ (create-Fenced id) (λ s p. p) (λ _ s p. p.0) (λ s p. p)

  clean-Keeps :
      (id : String)
      → Keeps {E = Error} P (write (λ s. record s { doomed = delete_where (is_id id) s.doomed }))
  clean-Keeps id = Triple-write _ (v.cleaned id)

  recover_each-Keeps : (ids : List String) → Keeps P (recover_each valid_id ids)
  unfolding recover_each
  recover_each-Keeps [] = search keeps_rules
  recover_each-Keeps (id ∷ ids) =
      Keeps-bind (create_deletion_record valid_id id) _ (create-Keeps id) λ _.
        Keeps-bind (check world) _ (Keeps-check world) λ _.
          Keeps-bind (write (λ s. record s { doomed = delete_where (is_id id) s.doomed })) _
            (clean-Keeps id) λ _. recover_each-Keeps ids

  pub recover-Keeps : Keeps P (recover_stages valid_id)
  unfolding recover_stages
  recover-Keeps = search (keeps_rules, recover_each-Keeps) depth 9

  delete_present-Keeps : (id : String) → Keeps P (delete_present valid_id id)
  unfolding delete_present
  delete_present-Keeps id =
      Keeps-bind (manifest valid_id id) _
        (Keeps-Reads (manifest valid_id id) (manifest-Reads valid_id id))
        λ o. Keeps-bind (check world) _ (Keeps-check world) λ _.
          Keeps-bind (read (λ s. s.objects)) _ (Keeps-read _) λ es.
            Keeps-bind (check_children valid_id id es) _
              (Keeps-Reads (check_children valid_id id es) (children-Reads valid_id id es))
              λ _. Keeps-bind (check world) _ (Keeps-check world) λ _.
                Triple-bind (create_deletion_record valid_id id) _ (create-Fenced id) λ _.
                  Triple-bind (check world) _ (reads (check world) (λ s p. p.0) (Reads-check world))
                    λ _.
                      Triple-bind (write (doom id)) _
                        (Triple-write (doom id) λ s p. v.doomed id s p.1 p.0) λ _. recover-Keeps

  pub delete-Keeps : (id : String) → Keeps P (delete valid_id id)
  unfolding delete
  delete-Keeps id = search (keeps_rules, recover-Keeps, delete_present-Keeps, create-Keeps) depth 9

  abbrev Vacant : Object → Space → Type 0
  Vacant o s = P s × (is_fenced o.id s ≡ false) × (has_object o.id s ≡ false)

  abbrev Unfenced : Object → Bool → Space → Type 0
  Unfenced o b s = P s × (is_fenced o.id s ≡ b)

  stop_unless :
      {Q R : Space → Type 0} (b : Bool) (e : Error)
      → ((s : Space) → Q s → P s)
      → ((s : Space) → b ≡ false → Q s → R s)
      → Triple Q (stop_if b e) (λ _. R) P
  stop_unless true e q r = Triple-stop e q
  stop_unless false e q r = Triple-give tt λ s p. r s refl p

  deletion_record-Triple : (o : Object) → Triple P (deletion_record valid_id o.id) (Unfenced o) P
  unfolding deletion_record
  deletion_record-Triple o =
      Triple-bind (check world) _ (Triple-reads (check world) (Reads-check world))
        λ _. Triple-read (is_fenced o.id) λ s p. (p, refl)

  pub put-Keeps : (o : Object) → Keeps P (put valid_id o)
  unfolding put
  put-Keeps o = Triple-bind (deletion_record valid_id o.id) _ (deletion_record-Triple o) λ gone.
      Triple-bind (stop_if gone is_deleted) _
        (stop_unless {R = Unfenced o false} gone is_deleted (λ s p. p.0) λ s e p. (p.0, p.1 ∙ e))
        λ _.
          Triple-bind (read (has_object o.id)) _
            (Triple-read {Q = λ there s. Unfenced o false s × (has_object o.id s ≡ there)}
              (has_object o.id) λ s p. (p, refl))
            λ there.
              Triple-bind (stop_if there present) _
                (stop_unless {R = Vacant o} there present (λ s p. p.0.0)
                  λ s e p. (p.0.0, p.0.1, p.1 ∙ e))
                λ _.
                  Triple-bind (check_parent valid_id o.parent) _
                    (reads (check_parent valid_id o.parent) (λ s p. p.0)
                      (parent-Reads valid_id o.parent))
                    λ _.
                      Triple-bind (check world) _
                        (reads (check world) (λ s p. p.0) (Reads-check world))
                        λ _.
                          Triple-bind (write (publish o)) _
                            (Triple-write (publish o) λ s p. v.published o s p.2 p.1 p.0)
                            λ _. Keeps-check world
