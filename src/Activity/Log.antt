-- ===== src/Activity/Log.antt =====
-- backend/src/api/activity.ts: the log of the agent's actions.
use sorosense.Base.{
  ℕ, suc, String, ◌≡◌, refl, Bool, true, false, Option, none, some, List, [], ◌∷◌, ◌++◌, keep, take,
  ◌==◌, ◌↔◌, Key, get_or, arith, if◌then◌else◌, Bool-cases, inl, inr,
}
use mathlib.Core.List.{reverse, reverse-append}
use sorosense.Seam.{Currency, currency_key}
use sorosense.Activity.Agent.{ActivityKind}

pub data Actor : Type 0 where
  you agent : Actor

abbrev pub actor_beq : Actor → Actor → Bool
actor_beq you you = true
actor_beq agent agent = true
actor_beq _ _ = false

pub actor_beq_iff : (a b : Actor) → (actor_beq a b ≡ true) ↔ (a ≡ b)
actor_beq_iff a b = ground arith

instance abbrev pub actor_key : Key Actor
actor_key = record { same = actor_beq; same_iff = actor_beq_iff }

pub record ActivityEntry : Type 0 where
  pub id : ℕ
  pub currency : Currency
  pub kind : ActivityKind
  pub detail : String
  pub actor : Actor
  pub ts : Option ℕ

-- What `append` is given: no id, and perhaps no actor.
pub record NewEntry : Type 0 where
  pub currency : Currency
  pub kind : ActivityKind
  pub detail : String
  pub actor : Option Actor
  pub ts : Option ℕ

pub record ActivityLog : Type 0 where
  pub entries : List ActivityEntry
  pub seq : ℕ

abbrev pub new_log : ActivityLog
new_log = record { entries = []; seq = 0 }

abbrev pub stored : NewEntry → ActivityLog → ActivityEntry
stored entry log = record {
  id = suc log.seq;
  currency = entry.currency;
  kind = entry.kind;
  detail = entry.detail;
  actor = get_or entry.actor agent;
  ts = entry.ts;
}

-- The log after it, and the entry that the caller gets.
unfoldable pub append : NewEntry → ActivityLog → ActivityLog × ActivityEntry
append entry log =
    let e = stored entry log in (record { entries = log.entries ++ (e ∷ []); seq = e.id }, e)

abbrev pub default_limit : ℕ
default_limit = 50

abbrev pub in_bucket : Option Currency → ActivityEntry → Bool
in_bucket none e = true
in_bucket (some c) e = e.currency == c

abbrev pub filtered : Option Currency → List ActivityEntry → List ActivityEntry
filtered none entries = entries
filtered (some c) entries = keep (in_bucket (some c)) entries

unfoldable pub list : Option Currency → ℕ → ActivityLog → List ActivityEntry
list currency limit log = take limit (reverse (filtered currency log.entries))

keep-snoc :
    (p : ActivityEntry → Bool) (e : ActivityEntry) (es : List ActivityEntry)
    → keep p (es ++ (e ∷ [])) ≡ (if p e then keep p es ++ (e ∷ []) else keep p es)
keep-snoc p e [] = ground arith
keep-snoc p e (x ∷ es) = ground (arith, keep-snoc p e es)

filtered-snoc :
    (currency : Option Currency) (e : ActivityEntry) (es : List ActivityEntry)
    → filtered currency (es ++ (e ∷ []))
      ≡ (if in_bucket currency e then filtered currency es ++ (e ∷ []) else filtered currency es)
filtered-snoc none e es = refl
filtered-snoc (some c) e es = keep-snoc (in_bucket (some c)) e es

-- An appended entry is the first of every list that its bucket is in, with an id one above the last
-- one given and the agent as its actor if none was said; the rest of the list is what was there.
-- A list of another bucket is unchanged.
pub list-append :
    (entry : NewEntry) (currency : Option Currency) (limit : ℕ) (log : ActivityLog)
    → list currency (suc limit) (append entry log).0 ≡ (
        if in_bucket currency (stored entry log)
        then stored entry log ∷ list currency limit log
        else list currency (suc limit) log)
unfolding list append
list-append entry currency limit log = elim (Bool-cases (in_bucket currency (stored entry log))) [
  | inl shown ↦
      rw (filtered-snoc currency (stored entry log) log.entries, shown)
        (rw (reverse-append (filtered currency log.entries) (stored entry log ∷ [])) refl)
  | inr hidden ↦ rw (filtered-snoc currency (stored entry log) log.entries, hidden) refl
]
