-- ===== src/Providers/Gmail.antt =====
-- `GmailAdapter` of src/postara/providers/gmail.py over any mail library.
pub mod Pages
use postara.Errors.{unsupported_provider_feature, message_not_found}
use postara.Exec.{Outcome, returned, raised, Exec, pure, lift, ◌>>=◌, ◌>>◌}
use postara.Prelude.{
  ℕ, String, Bool, true, false, not, Option, none, some, List, [], map, ltb, filter, any, ◌-◌, ◌&&◌,
  ◌||◌, ◌∷◌, if◌then◌else◌, ◌==◌, nat_eq, string_eq,
}
use Prim.Native.Char.{code}
use postara.Text.{Unicode, lower, ◌<>◌, is_ascii}
use postara.Providers.{
  Folder, MessageQuery, MessageSummary, Message, Mail, FolderInfo, MailBox, coerce_message_date,
}
use postara.Providers.Decimal.{show, int}

-- What the interpreter supplies: the Unicode tables, `strftime("%d-%b-%Y")`,
-- `parsedate_to_datetime`, and `int` on text that is not ASCII, where that is above zero.
pub record Interpreter : Type 0 where
  pub unicode : Unicode
  pub strftime : ℕ → String
  pub parsedate : String → Option ℕ
  pub int : String → Option ℕ

-- `value not in (None, False, "")`
abbrev pub is_set : Option String → Bool
is_set none = false
is_set (some s) = not (s == "")

abbrev pub is_true : Option Bool → Bool
is_true none = false
is_true (some b) = b

abbrev pub unless_empty : Bool → String → List String → List String
unless_empty true name names = name ∷ names
unless_empty false name names = names

-- The fields that `UnsupportedProviderFeature` carries.
unfoldable pub unsupported : MessageQuery → List String
unsupported q = unless_empty (is_set q.subject_contains) "subject_contains" (
    unless_empty (is_set q.text_contains) "text_contains"
      (unless_empty (is_true q.has_attachment) "has_attachment" []))

unfoldable pub validate_query : MessageQuery → Outcome (Unit {0})
validate_query q = elim (unsupported q) [
  | [] ↦ returned tt
  | _ ∷ _ ↦ raised unsupported_provider_feature
]

abbrev pub int_of : Interpreter → String → Option ℕ
int_of i uid = if is_ascii uid then int uid else i.int uid

abbrev pub above_zero : Option ℕ → Outcome ℕ
above_zero none = raised message_not_found
above_zero (some n) = if n == 0 then raised message_not_found else returned n

unfoldable pub uid_number : Interpreter → String → Outcome ℕ
uid_number i uid = above_zero (int_of i uid)

-- `" ".join(parts)` of the criteria behind the first.
abbrev pub and_part : Option String → String → String
and_part none rest = rest
and_part (some part) rest = " " <> (part <> rest)

abbrev pub time_part : Interpreter → String → Option ℕ → Option String
time_part i word none = none
time_part i word (some t) = some (word <> i.strftime t)

abbrev pub from_part : Option String → Option String
from_part none = none
from_part (some s) = if s == "" then none else some ("FROM \"" <> (s <> "\""))

abbrev pub cursor_part : ℕ → String
cursor_part n = if ltb 1 n then "UID 1:" <> show (n - 1) else "UID 0"

-- The criterion of a cursor; the empty one is none.
abbrev pub cursor_criterion : Interpreter → Option String → Outcome (Option String)
cursor_criterion i none = returned none
cursor_criterion i (some cursor) =
    if cursor == "" then returned none else elim (uid_number i cursor) [
      | raised e ↦ raised e
      | returned n ↦ returned (some (cursor_part n))
    ]

abbrev pub other_criteria : Interpreter → MessageQuery → String
other_criteria i q = and_part (if q.unread_only then some "UNSEEN" else none) (
    and_part (time_part i "SINCE " q.since)
      (and_part (time_part i "BEFORE " q.before) (and_part (from_part q.from_address) "")))

unfoldable pub criteria : Interpreter → MessageQuery → Outcome String
criteria i q = elim (cursor_criterion i q.cursor) [
  | raised e ↦ raised e
  | returned part ↦ returned ("ALL" <> and_part part (other_criteria i q))
]

unfoldable pub is_seen : List String → Bool
is_seen flags = any (λ flag. flag == "\\Seen") flags

abbrev pub has_any {ℓ} : {A : Type ℓ} → List A → Bool
has_any [] = false
has_any (_ ∷ _) = true

unfoldable pub summary : Interpreter → Mail → Outcome MessageSummary
summary i mail = elim (coerce_message_date i.parsedate mail.date) [
  | raised e ↦ raised e
  | returned date ↦ returned (record {
    uid = mail.uid;
    subject = mail.subject;
    from_address = mail.from_address;
    date = date;
    seen = is_seen mail.flags;
    has_attachments = has_any mail.attachments;
  })
]

unfoldable pub summaries : Interpreter → List Mail → Outcome (List MessageSummary)
summaries i [] = returned []
summaries i (mail ∷ mails) = elim (summary i mail) [
  | raised e ↦ raised e
  | returned x ↦ elim (summaries i mails) [ raised e ↦ raised e | returned xs ↦ returned (x ∷ xs) ]
]

abbrev pub message_of : Interpreter → Mail → Outcome Message
message_of i mail = elim (coerce_message_date i.parsedate mail.date) [
  | raised e ↦ raised e
  | returned date ↦ returned (record {
    uid = mail.uid;
    subject = mail.subject;
    from_address = mail.from_address;
    date = date;
    text = mail.text;
    html = mail.html;
    seen = is_seen mail.flags;
    attachments = mail.attachments;
  })
]

abbrev pub first_message : Interpreter → List Mail → Outcome (Option Message)
first_message i [] = returned none
first_message i (mail ∷ _) = elim (message_of i mail) [
  | raised e ↦ raised e
  | returned message ↦ returned (some message)
]

-- The first name of a mapping whose key is in a list.
unfoldable pub first_of : List String → List (String × String) → Option String
first_of keys [] = none
first_of keys ((key, name) ∷ rest) =
    if any (λ k. k == key) keys then some name else first_of keys rest

-- `s.lstrip("\\")`
unfoldable pub drop_backslashes : String → String
drop_backslashes String.[] = ""
drop_backslashes (String.◌∷◌ c s) =
    let rest = drop_backslashes s in if code c == b'\\' then rest else String.◌∷◌ c s

abbrev pub flag_mapping : List (String × String)
flag_mapping =
    ("inbox", "INBOX")
    ∷ ("sent", "SENT")
    ∷ ("drafts", "DRAFTS")
    ∷ ("trash", "TRASH")
    ∷ ("junk", "SPAM")
    ∷ ("spam", "SPAM")
    ∷ ("flagged", "STARRED")
    ∷ ("all", "ALL")
    ∷ ("important", "IMPORTANT")
    ∷ []

abbrev pub name_mapping : List (String × String)
name_mapping =
    ("inbox", "INBOX")
    ∷ ("[gmail]/sent mail", "SENT")
    ∷ ("[gmail]/已发邮件", "SENT")
    ∷ ("[gmail]/drafts", "DRAFTS")
    ∷ ("[gmail]/草稿", "DRAFTS")
    ∷ ("[gmail]/trash", "TRASH")
    ∷ ("[gmail]/已删除邮件", "TRASH")
    ∷ ("[gmail]/spam", "SPAM")
    ∷ ("[gmail]/垃圾邮件", "SPAM")
    ∷ ("[gmail]/starred", "STARRED")
    ∷ ("[gmail]/已加星标", "STARRED")
    ∷ ("[gmail]/all mail", "ALL")
    ∷ ("[gmail]/所有邮件", "ALL")
    ∷ ("[gmail]/important", "IMPORTANT")
    ∷ ("[gmail]/重要", "IMPORTANT")
    ∷ []

abbrev pub or_custom : Option String → String
or_custom none = "CUSTOM"
or_custom (some name) = name

unfoldable pub semantic_folder_name : Unicode → String → List String → String
semantic_folder_name u native_name flags =
    elim (first_of (map (λ flag. drop_backslashes (lower u flag)) flags) flag_mapping) [
      | some name ↦ name
      | none ↦ or_custom (first_of (lower u native_name ∷ []) name_mapping)
    ]

unfoldable pub selectable_folder : Unicode → FolderInfo → Bool
selectable_folder u info =
    not (any (λ flag. lower u flag == "\\noselect" || lower u flag == "\\nonexistent") info.flags)
    && not (info.name == "[Gmail]")

abbrev pub folder_of : Unicode → FolderInfo → Folder
folder_of u info = record {
  semantic_name = semantic_folder_name u info.name info.flags;
  native_name = info.name;
  delimiter = info.delim;
  flags = info.flags;
}

module _ (m : MailBox) (i : Interpreter) where
  unfoldable pub list_messages : String → MessageQuery → Exec m.State (List MessageSummary)
  list_messages folder q = do
    lift (validate_query q)
    m.set_folder folder
    wanted ← lift (criteria i q)
    mails ← m.fetch wanted q.limit true
    lift (summaries i mails)

  unfoldable pub list_folders : Exec m.State (List Folder)
  list_folders = do
    infos ← m.list_folders
    pure (map (folder_of i.unicode) (filter (selectable_folder i.unicode) infos))

  unfoldable pub fetch_message : String → String → Exec m.State (Option Message)
  fetch_message folder uid = do
    n ← lift (uid_number i uid)
    m.set_folder folder
    mails ← m.fetch ("UID " <> show n) 1 false
    lift (first_message i mails)

  unfoldable pub mark_seen : String → String → Bool → Exec m.State (Unit {0})
  mark_seen folder uid seen = do
    lift (uid_number i uid)
    m.set_folder folder
    m.flag uid "\\Seen" seen
