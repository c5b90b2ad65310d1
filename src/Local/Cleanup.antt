-- ===== src/Local/Cleanup.antt =====
-- What is left of the keys that a run has installed.
use contribute_semaphore.Base.{
  ◌≡◌, refl, sym, ap, subst, ◌∙◌, ◌⊎◌, inl, inr, false, Option, none, some, List, [], ◌∷◌, ◌++◌,
  arith,
}
use mathlib.Core.List.{append-nil, append_assoc}
use contribute_semaphore.Base.Text.{Text, text}
use contribute_semaphore.Host.{Host, HostLaws, Json, Stat, present, missing, stat_error}
use contribute_semaphore.Keys.Install.{Installation, destroy, key_path}
use contribute_semaphore.Local.Args.{LocalJob}
use contribute_semaphore.Local.Job.{
  destroy_key, destroy_keys, play, with_args, run_prepared, run_local,
}
use contribute_semaphore.Local.Prepare.{LocalState, prepare_run}
use contribute_semaphore.Model.Resources.{AccessKey}
use contribute_semaphore.Model.Status.{running}
use contribute_semaphore.Model.Store.{Result, Error, error_text}

module _ {F : Type 0} (h : Host F) (laws : HostLaws h) (json : Json)
    (deserialize : AccessKey → Result AccessKey) (tmp_path : Text) where
  -- No file of this installation is there, and no agent of it listens.
  abbrev pub Gone : Installation → F → Type 0
  Gone i f =
      (i.agent ≡ none → h.stat (key_path tmp_path i.number) f ≡ missing)
      × ((socket : Text) → i.agent ≡ some socket → h.listening socket f ≡ false)

  -- A property that neither a removal nor the end of an agent breaks.
  destroy_keeps :
      (P : F → Type 0)
      → ((path : Text) (f : F) → P f → P (h.remove path f).0)
      → ((socket : Text) (f : F) → P f → P (h.close_agent socket f).0)
      → (i : Installation) (f : F) → P f
      → P (destroy h tmp_path i f).0
  unfolding destroy
  destroy_keeps P removes closes i f m = go i.agent (h.stat (key_path tmp_path i.number) f)
    where
      go :
          (a : Option Text) (x : Stat)
          → P
              (elim a as (λ z. F × Option Error) [
                | some socket ↦ h.close_agent socket f
                | none ↦ elim x as (λ z. F × Option Error) [
                  | missing ↦ (f, none)
                  | other ↦ h.remove (key_path tmp_path i.number) f
                ]
              ]).0
      go (some socket) x = closes socket f m
      go none missing = m
      go none present = removes (key_path tmp_path i.number) f m
      go none (stat_error x) = removes (key_path tmp_path i.number) f m

  destroy-Gone :
      (i : Installation) (f : F)
      → (destroy h tmp_path i f).1 ≡ none
      → Gone i (destroy h tmp_path i f).0
  unfolding destroy
  destroy-Gone i f q = (
    λ e. go e (h.stat path f) refl,
    λ socket e. ground (arith, e, laws.listening-close_self socket f (closed socket e)),
  )
    where
      path : Text
      path = key_path tmp_path i.number

      closed : (socket : Text) → i.agent ≡ some socket → (h.close_agent socket f).1 ≡ none
      closed socket e = ground arith

      go :
          i.agent ≡ none
          → (x : Stat) → h.stat path f ≡ x
          → h.stat path (destroy h tmp_path i f).0 ≡ missing
      go e missing p = ground arith
      go e present p = ground (arith, laws.stat-remove_self path f)
      go e (stat_error x) p = ground (arith, laws.stat-remove_self path f)

  Gone-destroy : (i j : Installation) (f : F) → Gone i f → Gone i (destroy h tmp_path j f).0
  Gone-destroy i j f gone = (
    λ e.
        destroy_keeps (λ v. h.stat (key_path tmp_path i.number) v ≡ missing)
          (λ path v. laws.stat-remove path _ v) (λ socket v. laws.stat-close_agent socket _ v) j f
          (gone.0 e),
    λ socket e.
        destroy_keeps (λ v. h.listening socket v ≡ false) (λ path v. laws.listening-remove path _ v)
          (λ other v. laws.listening-close other _ v) j f (gone.1 socket e),
  )

  -- The log has the message with the error of Destroy.
  abbrev pub Told : Text → List Text → Type 0
  Told msg log =
      (pre : List Text) × (e : Error) × (post : List Text) × (log
        ≡ pre ++ (msg ++ error_text e) ∷ post)

  -- Nothing of the installation is left, or the log says why.
  abbrev pub Cleaned : Text → Installation → LocalState F → Type 0
  Cleaned msg i s = Gone i s.files ⊎ Told msg s.log

  Told-append : (msg : Text) (log more : List Text) → Told msg log → Told msg (log ++ more)
  Told-append msg log more t =
      (t.0, t.1, t.2 ++ more, ap (λ z. z ++ more) t.3 ∙ append_assoc t.0 _ more)

  -- One call of destroyKeys: what it does to the files, and what it says.
  destroy_key_lem :
      (msg : Text) (get : LocalState F → Installation) (s : LocalState F)
      → ((destroy_key h json deserialize tmp_path msg get s).files
          ≡ (destroy h tmp_path (get s) s.files).0)
        × ((destroy_key h json deserialize tmp_path msg get s).job ≡ s.job)
        × ((more : List Text) × ((destroy_key h json deserialize tmp_path msg get s).log
              ≡ s.log ++ more))
        × (((destroy h tmp_path (get s) s.files).1 ≡ none)
            ⊎ Told msg (destroy_key h json deserialize tmp_path msg get s).log)
  unfolding destroy_key
  destroy_key_lem msg get s = go (destroy h tmp_path (get s) s.files).1 refl
    where
      go :
          (o : Option Error)
          → (destroy h tmp_path (get s) s.files).1 ≡ o
          → ((destroy_key h json deserialize tmp_path msg get s).files
              ≡ (destroy h tmp_path (get s) s.files).0)
            × ((destroy_key h json deserialize tmp_path msg get s).job ≡ s.job)
            × ((more : List Text) × ((destroy_key h json deserialize tmp_path msg get s).log
                  ≡ s.log ++ more))
            × (((destroy h tmp_path (get s) s.files).1 ≡ none)
                ⊎ Told msg (destroy_key h json deserialize tmp_path msg get s).log)
      go none e = (ground arith, ground arith, ([], ground (arith, append-nil s.log)), inl e)
      go (some x) e = (
        ground arith,
        ground arith,
        ((msg ++ error_text x) ∷ [], ground arith),
        inr (s.log, x, [], ground arith),
      )

  -- The installation that a call destroys is cleaned up by it.
  destroy_key-Cleaned :
      (msg : Text) (get : LocalState F → Installation) (s : LocalState F)
      → Cleaned msg (get s) (destroy_key h json deserialize tmp_path msg get s)
  destroy_key-Cleaned msg get s =
      let d = destroy_key_lem msg get s in
      elim d.3 [
        | inl e ↦ inl (subst (Gone (get s)) (sym d.0) (destroy-Gone (get s) s.files e))
        | inr t ↦ inr t
      ]

  -- And what is cleaned up stays so.
  Cleaned-destroy_key :
      (msg other : Text) (i : Installation) (get : LocalState F → Installation) (s : LocalState F)
      → Cleaned msg i s
      → Cleaned msg i (destroy_key h json deserialize tmp_path other get s)
  Cleaned-destroy_key msg other i get s (inl gone) =
      let d = destroy_key_lem other get s in
      inl (subst (Gone i) (sym d.0) (Gone-destroy i (get s) s.files gone))
  Cleaned-destroy_key msg other i get s (inr told) =
      let d = destroy_key_lem other get s in
      inr (subst (Told msg) (sym d.2.1) (Told-append msg s.log d.2.0 told))

  abbrev pub ssh_message : Text
  ssh_message = text "Can't destroy inventory user key, error: "

  abbrev pub become_message : Text
  become_message = text "Can't destroy inventory become user key, error: "

  abbrev pub vault_message : Text
  vault_message = text "Can't destroy inventory vault password file, error: "

  -- The login key, the become key and the vault key of a job.
  abbrev pub AllCleaned : LocalJob → LocalState F → Type 0
  AllCleaned j s =
      Cleaned ssh_message j.ssh_key_installation s
      × Cleaned become_message j.become_key_installation s
      × Cleaned vault_message j.vault_file_installation s

  destroy_keys-AllCleaned :
      (s : LocalState F) → AllCleaned s.job (destroy_keys h json deserialize tmp_path s)
  unfolding destroy_keys
  destroy_keys-AllCleaned s =
      let by_ssh : LocalState F → Installation = λ v. v.job.ssh_key_installation in
      let by_become : LocalState F → Installation = λ v. v.job.become_key_installation in
      let by_vault : LocalState F → Installation = λ v. v.job.vault_file_installation in
      let s1 = destroy_key h json deserialize tmp_path ssh_message by_ssh s in
      let s2 = destroy_key h json deserialize tmp_path become_message by_become s1 in
      let j1 = (destroy_key_lem ssh_message by_ssh s).1 in
      let j2 = (destroy_key_lem become_message by_become s1).1 ∙ j1 in
      (
        Cleaned-destroy_key ssh_message vault_message s.job.ssh_key_installation by_vault s2 (
            Cleaned-destroy_key ssh_message become_message s.job.ssh_key_installation by_become s1
              (destroy_key-Cleaned ssh_message by_ssh s)),
        Cleaned-destroy_key become_message vault_message s.job.become_key_installation by_vault s2 (
            subst (λ j. Cleaned become_message j.become_key_installation s2) j1
              (destroy_key-Cleaned become_message by_become s1)),
        subst
            (λ j.
              Cleaned vault_message j.vault_file_installation
                (destroy_key h json deserialize tmp_path vault_message by_vault s2))
            j2 (destroy_key-Cleaned vault_message by_vault s2),
      )

  run_prepared-job :
      (username : Text) (version : Option Text) (s : LocalState F)
      → (run_prepared h json deserialize tmp_path username version s).0.job ≡ s.job
  unfolding run_prepared with_args play
  run_prepared-job username version s = ground arith

  -- After a local job whose preparation has succeeded, however it ends, each of the login key, the
  -- become key and the vault key that were installed is gone, its file removed or its agent
  -- closed, or the log has the message that it could not be destroyed, with the error; the host is
  -- supposed to keep to its laws.
  pub run_local-AllCleaned :
      (username : Text) (version : Option Text) (s t : LocalState F)
      → prepare_run h json deserialize tmp_path (record s { statuses = s.statuses ++ running ∷ [] })
        ≡ (t, none)
      → AllCleaned t.job (run_local h json deserialize tmp_path username version s).0
  unfolding run_local
  run_local-AllCleaned username version s t p =
      let u = (run_prepared h json deserialize tmp_path username version t).0 in
      let e : (run_local h json deserialize tmp_path username version s).0
          ≡ destroy_keys h json deserialize tmp_path u =
        ground (arith, p) in
      subst (AllCleaned t.job) (sym e) (
        subst (λ j. AllCleaned j (destroy_keys h json deserialize tmp_path u))
          (run_prepared-job username version t) (destroy_keys-AllCleaned u))
