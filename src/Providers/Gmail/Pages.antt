-- ===== src/Providers/Gmail/Pages.antt =====
-- Following the cursors of `GmailAdapter.list_messages`, src/postara/providers/gmail.py, as
-- `_next_cursor` of src/postara/api.py gives them.
use postara.Exec.{Outcome, returned, raised}
use postara.Prelude.{
  ℕ, zero, suc, String, refl, sym, ap, subst, inl, inr, true, false, Option, none, some, List, [],
  map, arith, ltb, leb, Bool-cases, length, take, filter, All, length-append, append_assoc,
  All-middle, map-append, length-map, ◌-◌, ◌*◌, ◌<◌, ◌≡◌, ◌∙◌, ◌⊎◌, ◌∷◌, ◌++◌, nat_eq, string_eq,
}
use postara.Text.{◌<>◌, <>-nil}
use postara.Providers.{MessageQuery, MessageSummary, Mail, MailBox}
use postara.Providers.Decimal.{show}
use postara.Providers.Decimal.RoundTrip.{int-show, is_ascii-show, show_not_empty}
use postara.Providers.Gmail.{
  Interpreter, unsupported, validate_query, uid_number, criteria, summaries, list_messages,
}
use postara.Api.Messages.{last_uid, next_cursor}

-- The query of a page, without filters.
abbrev pub page_query : ℕ → Option String → MessageQuery
page_query limit cursor = record {
  limit = limit;
  cursor = cursor;
  unread_only = false;
  since = none;
  before = none;
  from_address = none;
  subject_contains = none;
  text_contains = none;
  has_attachment = none;
}

-- Each uid is above zero and above all that come later.
abbrev pub IsDescending : List ℕ → Type 0
IsDescending [] = Unit
IsDescending (n ∷ rest) = (0 < n) × (All (λ k. k < n) rest) × IsDescending rest

-- The mail server shows these messages, the newest first, in the folder: it selects the folder, and
-- `fetch` finds all of them, or those up to a uid, by the criteria for these, up to the limit. What it
-- says to "UID 0" is left open: no message has that uid, and IMAP has no such set of uids.
pub record IsFolder (m : MailBox) (i : Interpreter) (folder : String) (uids : List ℕ)
    (mail_of : ℕ → Mail) (summary_of : ℕ → MessageSummary) : Type 0 where
  pub selects : (s : m.State) → (m.set_folder folder s).0 ≡ returned tt
  pub finds_all :
      (s : m.State) (n : ℕ) → (m.fetch "ALL" n true s).0 ≡ returned (map mail_of (take n uids))
  pub finds_below :
      (s : m.State) (n k : ℕ)
      → (m.fetch ("ALL UID 1:" <> show k) n true s).0
        ≡ returned (map mail_of (take n (filter (λ uid. leb uid k) uids)))
  pub summarises : (xs : List ℕ) → summaries i (map mail_of xs) ≡ returned (map summary_of xs)
  pub shows_uid : (uid : ℕ) → (summary_of uid).uid ≡ show uid

-- A client that asks for pages until there is no next cursor; `none` where the fuel is used up.
module _ (m : MailBox) (i : Interpreter) (folder : String) (limit : ℕ) where
  abbrev pub and_rest :
      List MessageSummary
      → Outcome (Option (List MessageSummary))
      → Outcome (Option (List MessageSummary))
  and_rest page (raised e) = raised e
  and_rest page (returned none) = returned none
  and_rest page (returned (some rest)) = returned (some (page ++ rest))

  unfoldable pub follow : ℕ → Option String → m.State → Outcome (Option (List MessageSummary))
  follow zero cursor s = returned none
  follow (suc fuel) cursor s =
      let (page, s') = list_messages m i folder (page_query limit cursor) s in
      elim page [
        | raised e ↦ raised e
        | returned messages ↦ elim (next_cursor messages limit) [
          | none ↦ returned (some messages)
          | some next ↦ and_rest messages (follow fuel (some next) s')
        ]
      ]

-- Where a page ends.
page_cases :
    (n : ℕ) (rest : List ℕ)
    → 0 < n
    → ((ltb (length (take n rest)) n ≡ true) × (take n rest ≡ rest))
      ⊎ ((xs : List ℕ) × (k : ℕ) × (later : List ℕ) × (rest ≡ xs ++ (k ∷ later))
          × (take n rest ≡ xs ++ (k ∷ []))
          × (ltb (length (take n rest)) n ≡ false))
page_cases zero rest h = let absurd : ⊥ = omega arith in elim absurd [ ]
page_cases (suc n) [] h = inl (ground arith, refl)
page_cases (suc zero) (k ∷ rest) h = inr ([], k, rest, refl, refl, ground arith)
page_cases (suc (suc n)) (x ∷ rest) h = elim (page_cases (suc n) rest (omega arith)) [
  | inl (short, whole) ↦ inl (ground (arith, short), ap (λ ys. x ∷ ys) whole)
  | inr (xs, k, later, splits, ends, full) ↦
      inr (x ∷ xs, k, later, ap (λ ys. x ∷ ys) splits, ap (λ ys. x ∷ ys) ends, ground (arith, full))
]

last_uid-append :
    (f : ℕ → MessageSummary) (xs : List ℕ) (k : ℕ)
    → last_uid (map f (xs ++ (k ∷ []))) ≡ some (f k).uid
last_uid-append f [] k = refl
last_uid-append f (x ∷ []) k = refl
last_uid-append f (x ∷ y ∷ xs) k = last_uid-append f (y ∷ xs) k

filter_same : (k : ℕ) (xs : List ℕ) → All (λ x. x < k) xs → filter (λ uid. leb uid (k - 1)) xs ≡ xs
filter_same k [] h = refl
filter_same k (x ∷ xs) h = ground (arith, h.0, filter_same k xs h.1)

IsDescending-suffix : (front rest : List ℕ) → IsDescending (front ++ rest) → IsDescending rest
IsDescending-suffix [] rest d = d
IsDescending-suffix (x ∷ front) rest d = IsDescending-suffix front rest d.2

-- What is below a uid of a descending list is what comes after it.
filter-below :
    (front : List ℕ) (k : ℕ) (rest : List ℕ)
    → IsDescending (front ++ (k ∷ rest))
    → filter (λ uid. leb uid (k - 1)) (front ++ (k ∷ rest)) ≡ rest
filter-below [] k rest d = ground (arith, d.0, filter_same k rest d.1)
filter-below (x ∷ front) k rest d =
    let above : k < x = All-middle (λ y. y < x) front k rest d.1 in
    ground (arith, filter-below front k rest d.2, above)

-- Where the pages are all full, no message has the uid 1: else the client would ask for "UID 0".
abbrev pub IsServed : ℕ → List ℕ → Type 0
IsServed limit uids = (pages : ℕ) → length uids ≡ pages * limit → All (λ k. 1 < k) uids

length-take_full :
    (n : ℕ) (xs : List ℕ) → ltb (length (take n xs)) n ≡ false → length (take n xs) ≡ n
length-take_full zero xs h = ground (arith, h)
length-take_full (suc n) [] h = ground (arith, h)
length-take_full (suc n) (x ∷ xs) h = ground (arith, h, length-take_full n xs)

-- Nothing comes after the uid 1.
nothing_below_one : (rest : List ℕ) → IsDescending (1 ∷ rest) → rest ≡ []
nothing_below_one [] d = refl
nothing_below_one (x ∷ rest) d =
    let small : x < 1 = (d.1).0 in
    let positive : 0 < x = (d.2).0 in
    let absurd : ⊥ = omega (arith, small, positive) in elim absurd [ ]

-- The uid that a page ends with is read back as the number it was printed from.
pub uid_number-show : (i : Interpreter) (k : ℕ) → 0 < k → uid_number i (show k) ≡ returned k
unfolding uid_number
uid_number-show i k h = rw (uid_number, is_ascii-show k, int-show k) (ground (arith, h))

module _ (m : MailBox) (i : Interpreter) (folder : String) (uids : List ℕ) (mail_of : ℕ → Mail)
    (summary_of : ℕ → MessageSummary) (h : IsFolder m i folder uids mail_of summary_of)
    (limit : ℕ) where
  -- A page, by what the criteria find.
  page_of :
      (cursor : Option String) (wanted : String) (found : List ℕ) (s : m.State)
      → criteria i (page_query limit cursor) ≡ returned wanted
      → ((s' : m.State) → (m.fetch wanted limit true s').0 ≡ returned (map mail_of found))
      → (list_messages m i folder (page_query limit cursor) s).0 ≡ returned (map summary_of found)
  unfolding list_messages validate_query unsupported
  page_of cursor wanted found s asks finds =
      rw (list_messages, h.selects s, asks, finds (m.set_folder folder s).1, h.summarises found)
        refl

  first_page :
      (s : m.State)
      → (list_messages m i folder (page_query limit none) s).0
        ≡ returned (map summary_of (take limit uids))
  unfolding criteria
  first_page s = page_of none "ALL" (take limit uids) s refl (λ s'. h.finds_all s' limit)

  next_page :
      (front later : List ℕ) (k : ℕ) (s : m.State)
      → uids ≡ front ++ (k ∷ later)
      → IsDescending uids
      → (later ≡ [] → 1 < k)
      → (list_messages m i folder (page_query limit (some (show k))) s).0
        ≡ returned (map summary_of (take limit later))
  unfolding criteria
  next_page front later k s whole d above =
      let ends = IsDescending-suffix front (k ∷ later) (subst IsDescending whole d) in
      let read = uid_number-show i k ends.0 in
      elim (Bool-cases (ltb 1 k)) [
        | inl more ↦
            page_of (some (show k)) ("ALL UID 1:" <> show (k - 1)) (take limit later) s
              (rw (criteria, show_not_empty k, read, more, <>-nil (show (k - 1))) refl)
              (λ s'.
                let below = filter-below front k later (subst IsDescending whole d) in
                h.finds_below s' limit (k - 1)
                ∙ ap (λ xs. returned (map mail_of (take limit xs)))
                    (ap (filter (λ uid. leb uid (k - 1))) whole ∙ below))
        | inr last ↦
            let one : k ≡ 1 = ground (arith, last, ends.0) in
            let none_later : later ≡ [] =
              nothing_below_one later (subst (λ n. IsDescending (n ∷ later)) one ends) in
            let more : 1 < k = above none_later in
            let absurd : ⊥ = omega (arith, one, more) in elim absurd [ ]
      ]

  -- The message that a full page ends with is above 1 where it is the last.
  last-above :
      (pages : ℕ) (front xs later : List ℕ) (k : ℕ)
      → IsServed limit uids
      → uids ≡ (front ++ xs) ++ (k ∷ later)
      → length front ≡ pages * limit
      → length (xs ++ (k ∷ [])) ≡ limit
      → later ≡ []
      → 1 < k
  last-above pages front xs later k served cut filled page none_later =
      let all_full : length uids ≡ suc pages * limit = omega (
        arith,
        ap length cut,
        length-append (front ++ xs) (k ∷ later),
        length-append front xs,
        ap length none_later,
        filled,
        page,
        length-append xs (k ∷ []),
      ) in
      All-middle (λ y. 1 < y) (front ++ xs) k later
        (subst (All (λ y. 1 < y)) cut (served (suc pages) all_full))

  -- From a page on, everything that comes is what is left.
  follow_rest :
      (fuel pages : ℕ) (front rest : List ℕ) (cursor : Option String) (s : m.State)
      → 0 < limit
      → IsDescending uids
      → IsServed limit uids
      → length front ≡ pages * limit
      → uids ≡ front ++ rest
      → length rest < fuel
      → ((s' : m.State)
          → (list_messages m i folder (page_query limit cursor) s').0
            ≡ returned (map summary_of (take limit rest)))
      → follow m i folder limit fuel cursor s ≡ returned (some (map summary_of rest))
  unfolding follow next_cursor
  follow_rest zero pages front rest cursor s some_limit d served filled whole enough page =
      let absurd : ⊥ = omega (arith, enough) in elim absurd [ ]
  follow_rest (suc fuel) pages front rest cursor s some_limit d served filled whole enough page =
      elim (page_cases limit rest some_limit) [
        | inl (short, all) ↦
            rw (follow, page s, next_cursor, length-map summary_of (take limit rest), short, all)
              refl
        | inr (xs, k, later, splits, ends, full) ↦
            let cut : uids ≡ (front ++ xs) ++ (k ∷ later) =
              whole ∙ (ap (λ ys. front ++ ys) splits ∙ sym (append_assoc front xs (k ∷ later))) in
            let cut' : uids ≡ (front ++ (xs ++ (k ∷ []))) ++ later =
              whole
              ∙ (ap (λ ys. front ++ ys) (splits ∙ sym (append_assoc xs (k ∷ []) later))
                  ∙ sym (append_assoc front (xs ++ (k ∷ [])) later)) in
            let fewer : length later < fuel =
              omega (arith, enough, ap length splits, length-append xs (k ∷ later)) in
            let one_page : length (xs ++ (k ∷ [])) ≡ limit =
              ap length (sym ends) ∙ length-take_full limit rest full in
            let filled' : length (front ++ (xs ++ (k ∷ []))) ≡ suc pages * limit =
              omega (arith, filled, one_page, length-append front (xs ++ (k ∷ []))) in
            let after =
              follow_rest fuel (suc pages) (front ++ (xs ++ (k ∷ []))) later (some (show k))
                (list_messages m i folder (page_query limit cursor) s).1 some_limit d served filled'
                cut' fewer
                (λ s'.
                  next_page (front ++ xs) later k s' cut d
                    (last-above pages front xs later k served cut filled one_page)) in
            let cursor_is : last_uid (map summary_of (take limit rest)) ≡ some (show k) =
              ap (λ ys. last_uid (map summary_of ys)) ends
              ∙ (last_uid-append summary_of xs k ∙ ap some (h.shows_uid k)) in
            let joined : map summary_of (take limit rest) ++ map summary_of later
                ≡ map summary_of rest =
              ap (λ ys. map summary_of ys ++ map summary_of later) ends
              ∙ (sym (map-append summary_of (xs ++ (k ∷ [])) later)
                  ∙ ap (map summary_of) (append_assoc xs (k ∷ []) later ∙ sym splits)) in
            rw
              (
                follow,
                page s,
                next_cursor,
                length-map summary_of (take limit rest),
                full,
                cursor_is,
                after,
              )
              (ap (λ ys. returned (some ys)) joined)
      ]

  -- A client that follows the cursors comes to an end and has every message of the folder once, the
  -- newest first, where the server shows messages with descending uids above zero and finds them by
  -- the criteria, a page has room for one message, and no message has the uid 1 if all pages are
  -- full; one page more than there are messages is enough.
  pub follow_complete :
      (fuel : ℕ) (s : m.State)
      → 0 < limit
      → IsDescending uids
      → IsServed limit uids
      → length uids < fuel
      → follow m i folder limit fuel none s ≡ returned (some (map summary_of uids))
  follow_complete fuel s some_limit d served enough =
      follow_rest fuel 0 [] uids none s some_limit d served (omega arith) refl enough first_page
