-- ===== src/Providers.antt =====
-- src/postara/providers/base.py: what all mail providers share. The mail library, `imap_tools`, is the
-- interface `MailBox`.
pub mod Registry
pub mod Decimal
pub mod Gmail
use postara.Prelude.{ℕ, String, Bool, Option, none, some, List}
use postara.Errors.{value_error}
use postara.Exec.{Outcome, returned, raised, Exec}

pub record Folder : Type 0 where
  pub semantic_name : String
  pub native_name : String
  pub delimiter : String
  pub flags : List String

-- Times are UTC instants in seconds. A limit below zero is left out.
pub record MessageQuery : Type 0 where
  pub limit : ℕ
  pub cursor : Option String
  pub unread_only : Bool
  pub since : Option ℕ
  pub before : Option ℕ
  pub from_address : Option String
  pub subject_contains : Option String
  pub text_contains : Option String
  pub has_attachment : Option Bool

pub record MessageSummary : Type 0 where
  pub uid : String
  pub subject : Option String
  pub from_address : Option String
  pub date : Option ℕ
  pub seen : Bool
  pub has_attachments : Bool

pub record Attachment : Type 0 where
  pub filename : Option String
  pub content_type : Option String
  pub size : Option ℕ

pub record Message : Type 0 where
  pub uid : String
  pub subject : Option String
  pub from_address : Option String
  pub date : Option ℕ
  pub text : Option String
  pub html : Option String
  pub seen : Bool
  pub attachments : List Attachment

-- What `mail.date` may be.
pub data MailDate : Type 0 where
  no_date other_date : MailDate
  datetime : ℕ → MailDate
  date_text : String → MailDate

-- `parsedate_to_datetime` is the argument; `none` is its `ValueError`.
unfoldable pub coerce_message_date : (String → Option ℕ) → MailDate → Outcome (Option ℕ)
coerce_message_date parsedate no_date = returned none
coerce_message_date parsedate other_date = returned none
coerce_message_date parsedate (datetime t) = returned (some t)
coerce_message_date parsedate (date_text s) = elim (parsedate s) [
  | none ↦ raised value_error
  | some t ↦ returned (some t)
]

-- What the adapters read of a message and of a folder of the mail library.
pub record Mail : Type 0 where
  pub uid : String
  pub subject : Option String
  pub from_address : Option String
  pub date : MailDate
  pub text : Option String
  pub html : Option String
  pub flags : List String
  pub attachments : List Attachment

pub record FolderInfo : Type 0 where
  pub name : String
  pub delim : String
  pub flags : List String

-- `fetch` takes the criteria, the limit, and whether the newest messages come first.
pub record MailBox : Type 1 where
  pub State : Type 0
  pub set_folder : String → Exec State (Unit {0})
  pub list_folders : Exec State (List FolderInfo)
  pub fetch : String → ℕ → Bool → Exec State (List Mail)
  pub flag : String → String → Bool → Exec State (Unit {0})
