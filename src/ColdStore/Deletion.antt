-- ===== src/ColdStore/Deletion.antt =====
-- What a Delete of internal/coldstore/server.go that returned leaves behind, for good.
use srv.ColdStore.Discipline.{
  create-Fenced, children-Reads, fence-fenced_self, manifest-Reads, recover-Keeps,
}
use srv.Effect.{read, write, ◌>>=◌, ◌>>◌, check, done, Run, stop_if}
use srv.ColdStore.Permanence.{
  Gone-Survives, Always-Survives, perform-Survives, delete-none, perform, Call, Gone,
}
use srv.ColdStore.{Object}
use srv.Effect.Keeps.{
  Triple-write, Keeps-read, Triple-answer, Triple-if, Triple-read, Keeps-check, Reads-check,
  Triple-give, Triple-stop, Triple-bind, Triple-reads, Triple-weaken, Keeps, Reads, Triple,
}
use srv.ColdStore.Server.{
  check_children, fence, world, doom, is_deleted, manifest, recover_stages, has_object, is_fenced,
  Space, Step, create_deletion_record, delete, delete_present, deletion_record, put, stat,
}
use srv.Base.{◌∙◌, refl, true, arith, false, ◌≡◌, Bool, List, String}

module _ (valid_id : String → Bool) where
  abbrev Always : Space → Type 0
  Always s = Unit

  abbrev Never : Space → Type 0
  Never s = false ≡ true

  -- Recovery keeps what is gone, and a deletion that returns made it so.
  Gone-weaken :
      {A : Type 0} (id : String) (m : Step A)
      → Keeps (Gone id) m
      → Triple (Gone id) m (λ _. Gone id) Always
  Gone-weaken id m k = Triple-weaken m k (λ s p. p) (λ _ s p. p) (λ s p. tt)

  anything : {A : Type 0} (m : Step A) → Reads m → Triple Always m (λ _. Always) Always
  anything m r = Triple-reads m r

  Reads-Gone :
      {A : Type 0} (id : String) (m : Step A) → Reads m → Triple (Gone id) m (λ _. Gone id) Always
  Reads-Gone id m r = Triple-weaken m (Triple-reads m r) (λ s p. p) (λ _ s p. p) (λ s p. tt)

  impossible : {A : Type 0} (m : Step A) → Triple Never m (λ _. Never) Always
  impossible m = record { at = λ run p. absurd (ground (arith, p)) }

  stops : (gone : Bool) → Triple (λ _. gone ≡ true) (stop_if gone is_deleted) (λ _. Never) Always
  stops true = Triple-stop is_deleted λ s p. tt
  stops false = Triple-give tt λ s p. p

  -- The record of a deletion keeps what is absent absent.
  created-Gone :
      (id : String)
      → Triple
          (λ s. has_object id s ≡ false)
          (create_deletion_record valid_id id)
          (λ _ s. (has_object id s ≡ false) × (is_fenced id s ≡ true))
          (λ s. has_object id s ≡ false)
  unfolding create_deletion_record
  created-Gone id =
      Triple-bind (check world) _ (Triple-reads (check world) (Reads-check world)) λ _.
        Triple-bind (write (fence id)) _
          (Triple-write (fence id) λ s p. (p, fence-fenced_self id s))
          λ _.
            Triple-weaken (check world) (Triple-reads (check world) (Reads-check world)) (λ s p. p)
              (λ _ s p. p) (λ s p. p.0)

  doom-Gone : (id : String) (s : Space) → is_fenced id s ≡ true → Gone id (doom id s)
  doom-Gone id s f = (f, delete-none id s.objects)

  delete_present-Gone :
      (id : String) → Triple Always (delete_present valid_id id) (λ _. Gone id) Always
  unfolding delete_present
  delete_present-Gone id =
      Triple-bind (manifest valid_id id) _
        (anything (manifest valid_id id) (manifest-Reads valid_id id))
        λ o. Triple-bind (check world) _ (Keeps-check world) λ _.
          Triple-bind (read (λ s. s.objects)) _ (Keeps-read _) λ es.
            Triple-bind (check_children valid_id id es) _
              (anything (check_children valid_id id es) (children-Reads valid_id id es))
              λ _. Triple-bind (check world) _ (Keeps-check world) λ _.
                Triple-bind (create_deletion_record valid_id id) _
                  (create-Fenced valid_id Always-Survives id)
                  λ _.
                    Triple-bind (check world) _
                      (Triple-weaken (check world) (Triple-reads (check world) (Reads-check world))
                        (λ s p. p) (λ _ s p. p) (λ s p. tt))
                      λ _.
                        Triple-bind (write (doom id)) _
                          (Triple-write (doom id) λ s p. doom-Gone id s p.1)
                          λ _.
                            Gone-weaken id (recover_stages valid_id)
                              (recover-Keeps valid_id (Gone-Survives id))

  delete-Gone : (id : String) → Triple Always (delete valid_id id) (λ _. Gone id) Always
  unfolding delete
  delete-Gone id =
      Triple-bind (recover_stages valid_id) _ (recover-Keeps valid_id Always-Survives) λ _.
        Triple-bind (check world) _ (Keeps-check world) λ _.
          Triple-bind (read (has_object id)) _
            (Triple-read {Q = λ there s. has_object id s ≡ there} (has_object id) λ s p. refl)
            λ there.
              Triple-if there (delete_present valid_id id) (create_deletion_record valid_id id)
                (λ h.
                  Triple-weaken (delete_present valid_id id) (delete_present-Gone id) (λ s p. tt)
                    (λ _ s p. p) (λ s p. p))
                λ h.
                  Triple-weaken (create_deletion_record valid_id id) (created-Gone id)
                    (λ s p. p ∙ h) (λ _ s p. (p.1, p.0)) (λ s p. tt)

  -- What starts with the record of deletion does not return for a recorded identity.
  refused_at :
      {A : Type 0} (id : String) (f : Bool → Step A) (k : Step A)
      → ((gone : Bool) → f gone ≡ (stop_if gone is_deleted >> k))
      → Triple (Gone id) (deletion_record valid_id id >>= f) (λ _. Never) Always
  unfolding deletion_record
  refused_at id f k same =
      Triple-bind (deletion_record valid_id id) f
        (Triple-bind (check world) _ (Reads-Gone id (check world) (Reads-check world))
          λ _. Triple-read {Q = λ gone s. gone ≡ true} (is_fenced id) λ s p. p.0)
        λ gone.
          rw (same gone)
            (Triple-bind (stop_if gone is_deleted) (λ _. k) (stops gone) λ _. impossible k)

  put-Never : (o : Object) → Triple (Gone o.id) (put valid_id o) (λ _. Never) Always
  unfolding put
  put-Never o = refused_at o.id _ _ λ gone. refl

  stat-Never : (id : String) → Triple (Gone id) (stat valid_id id) (λ _. Never) Always
  unfolding stat
  stat-Never id = refused_at id _ _ λ gone. refl

  -- After a Delete that returned, whatever puts, gets, stats, deletions and discards follow, and
  -- whatever the world answers, the deletion of the object still is recorded, no object has its
  -- identity, and no Put of that identity and no Stat of it returns.
  pub deleted_for_good :
      (o x : Object) (cs : List Call) (run : Run Space)
      → (delete valid_id o.id run).0 ≡ done tt
      → let end = perform valid_id cs (delete valid_id o.id run).1 in
        (is_fenced o.id end.state ≡ true)
        × (has_object o.id end.state ≡ false)
        × ¬ ((put valid_id o end).0 ≡ done tt)
        × ¬ ((stat valid_id o.id end).0 ≡ done x)
  deleted_for_good o x cs run h =
      let end = perform valid_id cs (delete valid_id o.id run).1 in
      let gone =
        perform-Survives valid_id cs (delete valid_id o.id run).1 (Gone-Survives o.id)
          (Triple-answer (delete valid_id o.id) run tt (delete-Gone o.id) tt h) in
      (
        gone.0,
        gone.1,
        λ e. absurd (ground (arith, Triple-answer (put valid_id o) end tt (put-Never o) gone e)),
        λ e.
            absurd
              (ground (arith, Triple-answer (stat valid_id o.id) end x (stat-Never o.id) gone e)),
      )
