-- ===== src/Tests/Pages.antt =====
-- The cursors of src/postara/providers/gmail.py on a folder of three messages.
use postara.Exec.{returned}
use postara.Prelude.{
  ℕ, String, refl, ap, false, Option, none, some, List, [], map, arith, leb, length, take, filter,
  ◌*◌, ◌≡◌, ◌∷◌, if◌then◌else◌, ◌==◌, nat_eq, string_eq,
}
use postara.Text.{◌<>◌}
use postara.Security.{behind}
use postara.Security.Tokens.{behind-append}
use postara.Providers.{Mail, MailBox, MessageSummary, no_date, coerce_message_date}
use postara.Providers.Decimal.{show, int}
use postara.Providers.Decimal.RoundTrip.{int-show}
use postara.Providers.Gmail.{Interpreter, summary, summaries, is_seen}
use postara.Providers.Gmail.Pages.{IsFolder, follow, follow_complete}
use postara.Tests.{ascii, strokes}

abbrev interpreter : Interpreter
interpreter = record { unicode = ascii; strftime = strokes; parsedate = λ s. none; int = λ s. none }

abbrev pub mail_of : ℕ → Mail
mail_of uid = record {
  uid = show uid;
  subject = none;
  from_address = none;
  date = no_date;
  text = none;
  html = none;
  flags = [];
  attachments = [];
}

abbrev summary_of : ℕ → MessageSummary
summary_of uid = record {
  uid = show uid;
  subject = none;
  from_address = none;
  date = none;
  seen = false;
  has_attachments = false;
}

abbrev pub uids : List ℕ
uids = 12 ∷ 7 ∷ 1 ∷ []

-- The server understands the three kinds of criteria.
abbrev pub below : ℕ → Option ℕ → List Mail
below n none = []
below n (some k) = map mail_of (take n (filter (λ uid. leb uid k) uids))

pub found : String → ℕ → List Mail
found criteria n = elim (behind "ALL UID 1:" criteria) [
  | some k ↦ below n (int k)
  | none ↦ if criteria == "ALL" then map mail_of (take n uids) else []
]

abbrev pub mailbox : MailBox
mailbox = record {
  State = Unit;
  set_folder = λ name s. (returned tt, s);
  list_folders = λ s. (returned [], s);
  fetch = λ criteria n newest_first s. (returned (found criteria n), s);
  flag = λ uid flag on s. (returned tt, s);
}

summaries-mail_of :
    (xs : List ℕ) → summaries interpreter (map mail_of xs) ≡ returned (map summary_of xs)
unfolding summaries summary is_seen coerce_message_date show
summaries-mail_of [] = refl
summaries-mail_of (x ∷ xs) = rw (summaries-mail_of xs) refl

found-below :
    (n k : ℕ)
    → found ("ALL UID 1:" <> show k) n ≡ map mail_of (take n (filter (λ uid. leb uid k) uids))
unfolding found
found-below n k = rw (found, behind-append "ALL UID 1:" (show k), int-show k) refl

three_mails-IsFolder : IsFolder mailbox interpreter "INBOX" uids mail_of summary_of
unfolding found behind
three_mails-IsFolder = record {
  selects = λ s. refl;
  finds_all = λ s n. refl;
  finds_below = λ s n k. ap returned (found-below n k);
  summarises = summaries-mail_of;
  shows_uid = λ uid. refl;
}

odd : (pages : ℕ) → length uids ≡ pages * 2 → ⊥
odd pages h = omega (arith, h)

follow_complete_example :
    follow mailbox interpreter "INBOX" 2 4 none tt
    ≡ returned (some (summary_of 12 ∷ summary_of 7 ∷ summary_of 1 ∷ []))
follow_complete_example =
    follow_complete mailbox interpreter "INBOX" uids mail_of summary_of three_mails-IsFolder 2 4 tt
      (omega arith)
      (
        omega arith,
        (omega arith, (omega arith, tt)),
        (omega arith, (omega arith, tt), (omega arith, tt, tt)),
      )
      (λ pages all_full. elim (odd pages all_full) [ ]) (omega arith)
