-- ===== src/Tests/Calls.antt =====
-- Calls of the mailbox runtime of src/postara/mailbox.py where no server is reached.
use postara.Errors.{provider_error, os_error}
use postara.Exec.{raised, pure, raise}
use postara.Prelude.{false, ◌≡◌}
use postara.Accounts.{app_password}
use postara.Mailbox.{MailLibrary, in_time, run, with_mailbox, validate_credentials}
use postara.Mailbox.Failures.{is_raw_outcome, renamed, told, with_mailbox_translated}
use postara.Tests.Pages.{mailbox}
use postara.Tests.Site.{inbox}

abbrev unreachable : MailLibrary
unreachable = record {
  box = mailbox;
  connect = λ host port. raise os_error;
  login = λ email password. pure tt;
  xoauth2 = λ email token. pure tt;
  logout = pure tt;
  timing = λ account_id s. in_time;
}

with_mailbox_translated_example :
    (with_mailbox unreachable inbox (app_password "pw") (pure tt) tt ≡ (raised provider_error, tt))
    × (validate_credentials unreachable "a@x.y" "pw" "imap.x.y" 993 tt
        ≡ (raised provider_error, tt))
    × (is_raw_outcome (with_mailbox unreachable inbox (app_password "pw") (pure tt) tt).0 ≡ false)
    × (is_raw_outcome (validate_credentials unreachable "a@x.y" "pw" "imap.x.y" 993 tt).0 ≡ false)
unfolding run renamed told
with_mailbox_translated_example =
    with_mailbox_translated unreachable inbox (app_password "pw") (pure tt) "a@x.y" "pw" "imap.x.y"
      993 tt
