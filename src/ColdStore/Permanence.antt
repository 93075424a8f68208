-- ===== src/ColdStore/Permanence.antt =====
-- Sequences of the operations of internal/coldstore/server.go and discard.go on one store.
use srv.ColdStore.Discard.{discard_objects-Keeps}
use srv.Effect.Keeps.{Keeps-bind, Keeps, Keeps-Reads, Keeps-state}
use srv.Base.Lists.{find_where, delete_where, exists_where}
use srv.Effect.{Run}
use srv.ColdStore.Discipline.{
  recover-Keeps, delete-Keeps, stat-Reads, get-Reads, put-Keeps, fence-fenced, Survives,
}
use srv.ColdStore.{Object}
use srv.ColdStore.Server.{
  recover_stages, Step, within_server, find_object, doom, fence, publish, discard_objects, delete,
  stat, get, has_object, names, put, Entry, is_fenced, Space,
}
use srv.Base.{
  ap, some, ◌∙◌, text_iff, ◌⊎◌, string_eq, refl, inr, arith, inl, ◌==◌, Bool-cases, [], false, true,
  ◌∷◌, ◌≡◌, Bool, List, String,
}

pub data Call : Type 0 where
  stored : Object → Call
  sent : String → String → Call
  listed : String → Call
  removed : String → Call
  dropped : List String → Call

module _ (valid_id : String → Bool) where
  unfoldable pub apply : Call → Run Space → Run Space
  apply (stored o) run = (within_server valid_id (put valid_id o) run).1
  apply (sent id parent) run = (within_server valid_id (get valid_id id parent) run).1
  apply (listed id) run = (within_server valid_id (stat valid_id id) run).1
  apply (removed id) run = (within_server valid_id (delete valid_id id) run).1
  apply (dropped ids) run = (discard_objects valid_id ids run).1

  unfoldable pub perform : List Call → Run Space → Run Space
  perform [] run = run
  perform (c ∷ cs) run = perform cs (apply c run)

  within-Keeps :
      {A : Type 0} {P : Space → Type 0} (m : Step A)
      → Survives P
      → Keeps P m
      → Keeps P (within_server valid_id m)
  within-Keeps m v k = Keeps-bind (recover_stages valid_id) _ (recover-Keeps valid_id v) λ _. k

  apply-Survives :
      {P : Space → Type 0} (c : Call) (run : Run Space)
      → Survives P
      → P run.state
      → P (apply c run).state
  unfolding apply
  apply-Survives (stored o) run v p =
      Keeps-state _ run (within-Keeps (put valid_id o) v (put-Keeps valid_id v o)) p
  apply-Survives (sent id parent) run v p =
      Keeps-state _ run
        (within-Keeps (get valid_id id parent) v
          (Keeps-Reads (get valid_id id parent) (get-Reads valid_id id parent)))
        p
  apply-Survives (listed id) run v p =
      Keeps-state _ run
        (within-Keeps (stat valid_id id) v
          (Keeps-Reads (stat valid_id id) (stat-Reads valid_id id)))
        p
  apply-Survives (removed id) run v p =
      Keeps-state _ run (within-Keeps (delete valid_id id) v (delete-Keeps valid_id v id)) p
  apply-Survives (dropped ids) run v p =
      Keeps-state (discard_objects valid_id ids) run (discard_objects-Keeps valid_id ids v) p

  pub perform-Survives :
      {P : Space → Type 0} (cs : List Call) (run : Run Space)
      → Survives P
      → P run.state
      → P (perform cs run).state
  unfolding perform
  perform-Survives [] run v p = p
  perform-Survives (c ∷ cs) run v p = perform-Survives cs (apply c run) v (apply-Survives c run v p)

abbrev pub Gone : String → Space → Type 0
Gone id s = (is_fenced id s ≡ true) × (has_object id s ≡ false)

doom-without :
    (id x : String) (es : List Entry)
    → exists_where (names x) es ≡ false
    → exists_where (names x) (delete_where (names id) es) ≡ false
doom-without id x [] h = refl
doom-without id x (e ∷ es) h = elim (Bool-cases (e.id == id)) [
  | inl i ↦ rw (i) (doom-without id x es (ground (arith, h)))
  | inr i ↦ rw (i) ground (arith, h, doom-without id x es (ground (arith, h)))
]

-- An identity that is recorded is not the one of an object to publish.
pub other_id :
    (x id : String) (s : Space) → is_fenced id s ≡ true → is_fenced x s ≡ false → (x == id) ≡ false
other_id x id s f h = elim (Bool-cases (x == id)) [
  | inl e ↦ absurd (ground (arith, f, h, ap (λ (y : String). is_fenced y s) ((text_iff x id).0 e)))
  | inr e ↦ e
]

pub delete-none :
    (id : String) (es : List Entry) → exists_where (names id) (delete_where (names id) es) ≡ false
delete-none id [] = refl
delete-none id (e ∷ es) = elim (Bool-cases (e.id == id)) [
  | inl i ↦ rw (i) (delete-none id es)
  | inr i ↦ rw (i, i) (delete-none id es)
]

pub Gone-Survives : (id : String) → Survives (Gone id)
Gone-Survives id = record {
  fenced = λ x s p. (fence-fenced x id s p.0, p.1);
  cleaned = λ x s p. p;
  doomed = λ x s f p. (p.0, doom-without x id s.objects p.1);
  published = λ o s h f p. (p.0, rw (other_id o.id id s p.0 f) p.1);
}

pub Always-Survives : Survives (λ s. Unit {0})
Always-Survives = record {
  fenced = λ x s p. tt;
  cleaned = λ x s p. tt;
  doomed = λ x s f p. tt;
  published = λ o s h f p. tt;
}

-- recorded as deleted, or still the same entry
abbrev Unchanged : String → Entry → Space → Type 0
Unchanged id e s = (is_fenced id s ≡ true) ⊎ (find_object id s ≡ some e)

pub find-delete :
    (x id : String) (es : List Entry)
    → (x == id) ≡ false
    → find_where (names id) (delete_where (names x) es) ≡ find_where (names id) es
find-delete x id [] h = refl
find-delete x id (e ∷ es) h = grind (arith, h, find-delete x id es h, text_iff)

doom-Unchanged :
    (x id : String) (e : Entry) (s : Space)
    → is_fenced x s ≡ true
    → Unchanged id e s
    → Unchanged id e (doom x s)
doom-Unchanged x id e s f (inl g) = inl g
doom-Unchanged x id e s f (inr g) = elim (Bool-cases (x == id)) [
  | inl i ↦ inl (rw (← (text_iff x id).0 i) f)
  | inr i ↦ inr (find-delete x id s.objects i ∙ g)
]

fence-Unchanged :
    (x id : String) (e : Entry) (s : Space) → Unchanged id e s → Unchanged id e (fence x s)
fence-Unchanged x id e s (inl g) = inl (fence-fenced x id s g)
fence-Unchanged x id e s (inr g) = inr g

found-exists :
    (id : String) (e : Entry) (es : List Entry)
    → find_where (names id) es ≡ some e
    → exists_where (names id) es ≡ true
found-exists id e [] h = absurd (ground (arith, h))
found-exists id e (x ∷ es) h = ground (arith, h, found-exists id e es)

publish-Unchanged :
    (o : Object) (id : String) (e : Entry) (s : Space)
    → has_object o.id s ≡ false
    → Unchanged id e s
    → Unchanged id e (publish o s)
publish-Unchanged o id e s h (inl g) = inl g
publish-Unchanged o id e s h (inr g) = elim (Bool-cases (o.id == id)) [
  | inl i ↦ absurd (
      ground (
        arith,
        h,
        found-exists id e s.objects g,
        ap (λ (y : String). has_object y s) ((text_iff o.id id).0 i),
      ))
  | inr i ↦ inr (rw (i) g)
]

Unchanged-Survives : (id : String) (e : Entry) → Survives (Unchanged id e)
Unchanged-Survives id e = record {
  fenced = λ x s. fence-Unchanged x id e s;
  cleaned = λ x s p. p;
  doomed = λ x s. doom-Unchanged x id e s;
  published = λ o s h f. publish-Unchanged o id e s h;
}

module _ (valid_id : String → Bool) where
  -- Whatever puts, gets, stats, deletions and discards follow, and whatever the world answers, an
  -- object that the store holds keeps its entry, manifest included, until its deletion is recorded.
  pub immutable_until_deleted :
      (id : String) (e : Entry) (cs : List Call) (run : Run Space)
      → find_object id run.state ≡ some e
      → let end = (perform valid_id cs run).state in
        (is_fenced id end ≡ true) ⊎ (find_object id end ≡ some e)
  immutable_until_deleted id e cs run h =
      perform-Survives valid_id cs run (Unchanged-Survives id e) (inr h)
