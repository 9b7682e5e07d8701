-- ===== src/Mailbox.antt =====
-- `MailboxRuntime` of src/postara/mailbox.py over any mail library. `imap_error` stands for
-- `imaplib.IMAP4.error` and imap_tools' `MailboxLoginError`, `os_error` for `OSError`, and
-- `imap_tools_error` for the other exceptions of imap_tools, among them those for a folder that cannot
-- be selected and for a status that is not `OK`. Each operation of the library may raise any of them.
pub mod Failures
use postara.Errors.{
  authentication_error, provider_error, not_implemented, imap_error, os_error, execution_timeout,
  Error,
}
use postara.Exec.{returned, raised, Exec, raise, lift, ◌>>=◌, ◌>>◌}
use postara.Prelude.{ℕ, String, Bool, Option, List}
use postara.Accounts.{AccountRecord, Credential, app_password, oauth2}
use postara.Providers.{Folder, MessageQuery, MessageSummary, Message, MailBox}
use postara.Providers.Gmail
use postara.Providers.Gmail.{Interpreter}
use postara.Providers.Registry
use postara.Providers.Registry.{
  ProviderRegistry, Adapter, gmail_adapter, icloud_adapter, outlook_adapter,
}
use postara.Api.{MailboxRuntime, try_except}

-- How a job of the executor goes for the account that calls it: its caller has the result, or times
-- out, where the job goes on or is cancelled before it begins.
pub data Timing : Type 0 where
  in_time goes_on cancelled : Timing

-- The mail library: `MailBox(host, port)`, `login`, `xoauth2` and the end of the `with`.
pub record MailLibrary : Type 1 where
  pub box : MailBox
  pub connect : String → ℕ → Exec box.State (Unit {0})
  pub login : String → String → Exec box.State (Unit {0})
  pub xoauth2 : String → String → Exec box.State (Unit {0})
  pub logout : Exec box.State (Unit {0})
  pub timing : ℕ → box.State → Timing

-- The errors that the two `except` of `work` take; `imap_tools_error` is none of them.
unfoldable pub of_library : Error → Error
of_library imap_error = authentication_error
of_library os_error = provider_error
of_library e = e

abbrev pub or_connection_error : Error → Error
or_connection_error execution_timeout = provider_error
or_connection_error e = e

module _ {S : Type 0} {A : Type 0} where
  abbrev pub raised_as : (Error → Error) → Exec S A → Exec S A
  raised_as f m = try_except m (λ e. raise (f e))

  -- `with mailbox: …`; an error of `logout` takes the place of another.
  abbrev pub closing : Exec S (Unit {0}) → Exec S A → Exec S A
  closing logout m s = let (r, s1) = m s in (logout >> lift r) s1

  -- `ImapExecutor.run`
  abbrev pub timed : Timing → Exec S A → Exec S A
  timed in_time m s = m s
  timed goes_on m s = (raised execution_timeout, (m s).1)
  timed cancelled m s = (raised execution_timeout, s)

module _ (m : MailLibrary) where
  unfoldable pub run : {A : Type 0} → ℕ → Exec m.box.State A → Exec m.box.State A
  run account_id job s = timed (m.timing account_id s) job s

  abbrev pub authenticate : String → Credential → Exec m.box.State (Unit {0})
  authenticate email (app_password password) = m.login email password
  authenticate email (oauth2 access_token scopes expires_at) = m.xoauth2 email access_token

  -- `work` of `_with_mailbox`
  unfoldable pub job_of :
      {A : Type 0} → AccountRecord → Credential → Exec m.box.State A → Exec m.box.State A
  job_of account credential callback = raised_as of_library (do
    m.connect account.imap_host account.imap_port
    authenticate account.email credential
    closing m.logout callback)

  unfoldable pub with_mailbox :
      {A : Type 0} → AccountRecord → Credential → Exec m.box.State A → Exec m.box.State A
  with_mailbox account credential callback =
      raised_as or_connection_error (run account.id (job_of account credential callback))

  unfoldable pub validate_credentials : String → String → String → ℕ → Exec m.box.State (Unit {0})
  validate_credentials email password imap_host imap_port = raised_as or_connection_error (
      run 0 (
        raised_as of_library (do
          m.connect imap_host imap_port
          m.login email password
          closing m.logout (lift (returned tt)))))

  -- The calls of an adapter: those of iCloud and Outlook are not written yet.
  abbrev pub by_adapter : {A : Type 0} → Exec m.box.State A → Adapter → Exec m.box.State A
  by_adapter call gmail_adapter = call
  by_adapter call icloud_adapter = raise not_implemented
  by_adapter call outlook_adapter = raise not_implemented

  module _ (registry : ProviderRegistry) (i : Interpreter) where
    -- `self._adapter_for(account)`, where no adapter is given to the runtime.
    abbrev pub for_account :
        {A : Type 0} → AccountRecord → Credential → Exec m.box.State A → Exec m.box.State A
    for_account account credential call =
        with_mailbox account credential
          (lift (Registry.get registry account.provider) >>= by_adapter call)

    unfoldable pub list_messages :
        AccountRecord → Credential → String → MessageQuery → Exec m.box.State (List MessageSummary)
    list_messages account credential folder query =
        for_account account credential (Gmail.list_messages m.box i folder query)

    unfoldable pub list_folders : AccountRecord → Credential → Exec m.box.State (List Folder)
    list_folders account credential = for_account account credential (Gmail.list_folders m.box i)

    unfoldable pub fetch_message :
        AccountRecord → Credential → String → String → Exec m.box.State (Option Message)
    fetch_message account credential folder uid =
        for_account account credential (Gmail.fetch_message m.box i folder uid)

    unfoldable pub mark_seen :
        AccountRecord → Credential → String → String → Bool → Exec m.box.State (Unit {0})
    mark_seen account credential folder uid seen =
        for_account account credential (Gmail.mark_seen m.box i folder uid seen)

    abbrev pub mailbox_runtime : MailboxRuntime
    mailbox_runtime = record {
      State = m.box.State;
      validate_credentials = validate_credentials;
      list_folders = list_folders;
      list_messages = list_messages;
      fetch_message = fetch_message;
      mark_seen = mark_seen;
    }
