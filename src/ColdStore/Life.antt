-- ===== src/ColdStore/Life.antt =====
-- What the cold store promises of one identity: it is absent, then published once, then deleted, or
-- deleted at once, and never goes back.
use srv.Effect.{Run}
use srv.ColdStore.Discipline.{Survives, fence-fenced}
use mathlib.Core.Path.{subst}
use srv.ColdStore.Permanence.{perform-Survives, perform, Call, find-delete}
use srv.ColdStore.{Object}
use srv.Base.Lists.{find_where, exists_where}
use srv.ColdStore.Server.{
  doom, publish, find_object, has_object, names, fence, is_fenced, Space, Entry,
}
use srv.Base.{
  text_iff, text_refl, ◌∙◌, refl, [], arith, string_eq, inr, ◌∷◌, inl, none, sym, ◌==◌, Bool-cases,
  some, Option, ap, false, true, Bool, ◌≡◌, String, List,
}

pub data Life : Type 0 where
  absent deleted : Life
  published : Entry → Life

pub data Leads : Life → Life → Type 0 where
  stays : {l : Life} → Leads l l
  appears : {e : Entry} → Leads absent (published e)
  ends : {l : Life} → Leads l deleted

abbrev pub life : Bool → Option Entry → Life
life true o = deleted
life false none = absent
life false (some e) = published e

-- the abstract view of a store
abbrev pub life_of : String → Space → Life
life_of id s = life (is_fenced id s) (find_object id s)

Leads-trans : {a b c : Life} → Leads a b → Leads b c → Leads a c
Leads-trans p stays = p
Leads-trans stays appears = appears
Leads-trans p ends = ends

Leads-same : {a b : Life} → a ≡ b → Leads a b
Leads-same {a} p = subst (λ (c : Life). Leads a c) p stays

-- A recorded deletion is the end.
unless_fenced :
    (id : String) (l : Life) (s : Space)
    → (is_fenced id s ≡ false → Leads l (life_of id s))
    → Leads l (life_of id s)
unless_fenced id l s k = elim (Bool-cases (is_fenced id s)) [
  | inl f ↦ subst (λ (b : Bool). Leads l (life b (find_object id s))) (sym f) ends
  | inr f ↦ k f
]

unfenced_before :
    (x id : String) (s : Space) → is_fenced id (fence x s) ≡ false → is_fenced id s ≡ false
unfenced_before x id s f = elim (Bool-cases (is_fenced id s)) [
  | inl g ↦ absurd (ground (arith, f, fence-fenced x id s g))
  | inr g ↦ g
]

other_fenced :
    (x id : String) (s : Space) → is_fenced x s ≡ true → is_fenced id s ≡ false → (x == id) ≡ false
other_fenced x id s g f = elim (Bool-cases (x == id)) [
  | inl e ↦ absurd (ground (arith, f, g, ap (λ (y : String). is_fenced y s) ((text_iff x id).0 e)))
  | inr e ↦ e
]

fence-Leads : (x id : String) (s : Space) → Leads (life_of id s) (life_of id (fence x s))
fence-Leads x id s = unless_fenced id (life_of id s) (fence x s) λ f.
    Leads-same (ap (λ (b : Bool). life b (find_object id s)) (unfenced_before x id s f ∙ sym f))

doom-Leads :
    (x id : String) (s : Space)
    → is_fenced x s ≡ true
    → Leads (life_of id s) (life_of id (doom x s))
doom-Leads x id s g = unless_fenced id (life_of id s) (doom x s) λ f.
    Leads-same
      (ap (life (is_fenced id s)) (sym (find-delete x id s.objects (other_fenced x id s g f))))

none_found :
    (id : String) (es : List Entry)
    → exists_where (names id) es ≡ false
    → find_where (names id) es ≡ none
none_found id [] h = refl
none_found id (e ∷ es) h = grind (arith, h, none_found id es)

published_at :
    (o : Object) (s : Space)
    → has_object o.id s ≡ false
    → is_fenced o.id s ≡ false
    → Leads (life_of o.id s) (life_of o.id (publish o s))
published_at o s h f = rw (f, none_found o.id s.objects h, text_refl o.id) appears

publish-Leads :
    (o : Object) (id : String) (s : Space)
    → has_object o.id s ≡ false
    → is_fenced o.id s ≡ false
    → Leads (life_of id s) (life_of id (publish o s))
publish-Leads o id s h f = elim (Bool-cases (o.id == id)) [
  | inl i ↦
      subst (λ (x : String). Leads (life_of x s) (life_of x (publish o s))) ((text_iff o.id id).0 i)
        (published_at o s h f)
  | inr i ↦ rw (i) stays
]

Leads-Survives : (id : String) (l : Life) → Survives (λ s. Leads l (life_of id s))
Leads-Survives id l = record {
  fenced = λ x s p. Leads-trans p (fence-Leads x id s);
  cleaned = λ x s p. p;
  doomed = λ x s g p. Leads-trans p (doom-Leads x id s g);
  published = λ o s h f p. Leads-trans p (publish-Leads o id s h f);
}

-- Seen from one identity, every sequence of puts, gets, stats, deletions and discards, whatever the
-- world answers, is a run of the abstract life of an object: absent, then published with an entry
-- that stays, then deleted.
pub refines_life :
    (valid_id : String → Bool) (id : String) (cs : List Call) (run : Run Space)
    → Leads (life_of id run.state) (life_of id (perform valid_id cs run).state)
refines_life valid_id id cs run =
    perform-Survives valid_id cs run (Leads-Survives id (life_of id run.state)) stays
