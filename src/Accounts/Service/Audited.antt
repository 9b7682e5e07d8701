-- ===== src/Accounts/Service/Audited.antt =====
-- What a method of `RepositoryAccountService` of src/postara/accounts.py leaves in the audit outbox.
use postara.Errors.{Error}
use postara.Exec.{Outcome, returned, raised, Exec, pure, transaction, ◌>>=◌, ◌>>◌}
use postara.Prelude.{ℕ, String, refl, ap, inl, inr, Option, some, ◌+◌, ◌≡◌, ◌⊎◌, nat_eq, string_eq}
use postara.Audit.{Fields, end, field, text}
use postara.Audit.Outbox.{AuditOutboxOrm, event_object, enqueue}
use postara.Dict.{Dict}
use postara.Accounts.{AccountRecord, Ambient}
use postara.Accounts.Tables.{Tables}
use postara.Accounts.Repository
use postara.Accounts.Repository.Quiet.{
  IsQuiet, log_of, create-IsQuiet, complete-IsQuiet, delete_for_user-IsQuiet,
  update_name_for_user-IsQuiet, update_credentials_for_user-IsQuiet,
}
use postara.Accounts.Service.{
  RepositoryAccountService, AuditContext, audit_event, enqueue_event, create_for_user,
  complete_app_password_verification, delete_for_user, update_name_for_user,
  update_credentials_for_user, mailbox_extra,
}

module _ (g : RepositoryAccountService) (context : Option AuditContext) (a : Ambient) where
  -- A method raises and leaves all tables as they were, or it returns and the outbox has one more
  -- row, of an event with this action, and all its other rows.
  abbrev pub IsAudited : {A : Type 0} → String → Exec Tables A → Tables → Type 0
  IsAudited {A} action m t =
      ((e : Error) × (m t ≡ (raised e, t)))
      ⊎ ((b : A) × (target : Option ℕ) × (extra : Fields) × ((m t).0 ≡ returned b)
          × ((m t).1.outbox
              ≡ enqueue g.python t.next_outbox_id a.now
                  (event_object (audit_event context action target extra)) t.outbox)
          × ((m t).1.next_outbox_id ≡ t.next_outbox_id + 1))

  -- A quiet method, its event, and the commit.
  abbrev logged :
      {A B : Type 0}
      → String
      → (A → Option ℕ)
      → (A → Fields)
      → (A → B)
      → Exec Tables A
      → Exec Tables B
  logged action target extra result m = transaction (do
    x ← m
    enqueue_event g a (audit_event context action (target x) (extra x))
    pure (result x))

  end-IsAudited :
      {A B : Type 0} (action : String) (target : A → Option ℕ) (extra : A → Fields) (result : A → B)
      (r : Outcome A) (t after : Tables)
      → log_of after ≡ log_of t
      → IsAudited action (λ before. logged action target extra result (λ _. (r, after)) before) t
  unfolding enqueue_event
  end-IsAudited action target extra result (raised e) t after same = inl (e, refl)
  end-IsAudited action target extra result (returned x) t after same = inr (
    result x,
    target x,
    extra x,
    refl,
    ap
        (λ (l : Dict ℕ AuditOutboxOrm × ℕ).
          enqueue g.python l.1 a.now
            (event_object (audit_event context action (target x) (extra x))) l.0)
        same,
    ap (λ (l : Dict ℕ AuditOutboxOrm × ℕ). l.1 + 1) same,
  )

  logged-IsAudited :
      {A B : Type 0} (action : String) (target : A → Option ℕ) (extra : A → Fields) (result : A → B)
      (m : Exec Tables A) (t : Tables)
      → IsQuiet m
      → IsAudited action (logged action target extra result m) t
  logged-IsAudited action target extra result m t q =
      end-IsAudited action target extra result (m t).0 t (m t).1 (q.quiet t)

  completed-IsAudited :
      (user_id : ℕ) (id code : String) (t : Tables)
      → IsAudited "mailbox.app_password_verify_completed"
          (complete_app_password_verification g context a user_id id code)
          t
  unfolding complete_app_password_verification
  completed-IsAudited user_id id code t =
      logged-IsAudited "mailbox.app_password_verify_completed" (λ (x : AccountRecord). some x.id)
        (λ (x : AccountRecord). mailbox_extra x.email x.provider "app_password")
        (λ (x : AccountRecord). x)
        (Repository.complete_pending_app_password_verification g.repo a user_id id code) t
        (complete-IsQuiet g.repo a user_id id code)

  created-IsAudited :
      (user_id : ℕ) (name email provider password : String) (t : Tables)
      → IsAudited "account.create"
          (create_for_user g context a user_id name email provider password)
          t
  unfolding create_for_user
  created-IsAudited user_id name email provider password t =
      logged-IsAudited "account.create" (λ (x : AccountRecord × String). some (x.0).id)
        (λ (x : AccountRecord × String). field "email" (text (x.0).email) end)
        (λ (x : AccountRecord × String). x.0)
        (Repository.create g.repo a name email provider password (some user_id)) t
        (create-IsQuiet g.repo a name email provider password (some user_id))

  renamed-IsAudited :
      (user_id id : ℕ) (name : String) (t : Tables)
      → IsAudited "mailbox.name_updated" (update_name_for_user g context a user_id id name) t
  unfolding update_name_for_user
  renamed-IsAudited user_id id name t =
      logged-IsAudited "mailbox.name_updated" (λ (x : AccountRecord). some x.id)
        (λ (x : AccountRecord). field "name" (text x.name) end) (λ (x : AccountRecord). x)
        (Repository.update_name_for_user user_id id name) t
        (update_name_for_user-IsQuiet user_id id name)

  updated-IsAudited :
      (user_id id : ℕ) (password : String) (t : Tables)
      → IsAudited "credentials.update"
          (update_credentials_for_user g context a user_id id password)
          t
  unfolding update_credentials_for_user
  updated-IsAudited user_id id password t =
      logged-IsAudited "credentials.update" (λ (x : AccountRecord). some x.id)
        (λ (x : AccountRecord). end) (λ (x : AccountRecord). x)
        (Repository.update_credentials_for_user g.repo a user_id id password) t
        (update_credentials_for_user-IsQuiet g.repo a user_id id password)

  deleted-IsAudited :
      (user_id id : ℕ) (t : Tables)
      → IsAudited "account.delete" (delete_for_user g context a user_id id) t
  unfolding delete_for_user enqueue_event
  deleted-IsAudited user_id id t =
      logged-IsAudited "account.delete" (λ (x : Unit {0}). some id) (λ (x : Unit {0}). end)
        (λ (x : Unit {0}). x) (Repository.delete_for_user user_id id) t
        (delete_for_user-IsQuiet user_id id)

  -- Making a mailbox, completing its verification, naming it anew, giving it a new password and
  -- deleting it for a user each do all or nothing: the method raises and all tables are as they were,
  -- or it returns and the outbox has one more row, of an event with the action of the method.
  pub mailbox_changes-IsAudited :
      (user_id id : ℕ) (name email provider password verification_id code : String) (t : Tables)
      → IsAudited "account.create"
          (create_for_user g context a user_id name email provider password)
          t
        × IsAudited "mailbox.app_password_verify_completed"
            (complete_app_password_verification g context a user_id verification_id code)
            t
        × IsAudited "mailbox.name_updated" (update_name_for_user g context a user_id id name) t
        × IsAudited "credentials.update"
            (update_credentials_for_user g context a user_id id password)
            t
        × IsAudited "account.delete" (delete_for_user g context a user_id id) t
  mailbox_changes-IsAudited user_id id name email provider password verification_id code t = (
    created-IsAudited user_id name email provider password t,
    completed-IsAudited user_id verification_id code t,
    renamed-IsAudited user_id id name t,
    updated-IsAudited user_id id password t,
    deleted-IsAudited user_id id t,
  )
