-- ===== src/Wake/Signed.antt =====
-- bothy/wake.py: only a signed request to a known route is accepted.
use bothy.Common.{ℕ, ◌≤◌, String, str_append, Option, none, some, ◌≡◌, value_or}
use bothy.Dict
use bothy.RateLimit.Limiter
use bothy.Wake.Signature.{Crypto, presented}
use bothy.Wake.Server.{Server}

-- the messages that a signature may be of: the body as it was sent, its canonical form, and what the
-- schemes with a time stamp put before the body
pub data Signs (c : Crypto) (body : String) (stamp id : Option String) : String → Type 0 where
  as_sent : Signs c body stamp id body
  as_canonical : (form : String) → c.canonical body ≡ some form → Signs c body stamp id form
  as_stamped :
      (t : String) → stamp ≡ some t → Signs c body stamp id (str_append t (str_append "." body))
  as_named :
      (t : String)
      → stamp ≡ some t
      → Signs c body stamp id
          (str_append (value_or id "") (str_append "." (str_append t (str_append "." body))))

-- a time stamp that is there is no further from now than that
abbrev pub Timely : Crypto → ℕ → Option String → Type 0
Timely c max_skew none = Unit
Timely c max_skew (some t) = (away : ℕ) × (c.skew t ≡ some away × away ≤ max_skew)

module _ (c : Crypto) (secret body : String) (stamp id : Option String) where
  -- a digest of such a message
  abbrev Digest : String → Type 0
  Digest d = (m : String) × (Signs c body stamp id m × d ≡ c.hmac secret m)

  -- what a signature that holds is
  abbrev pub Holds : ℕ → Option String → Type 0
  Holds max_skew signature =
      (sig : String) × (signature ≡ some sig × (Digest (presented c sig) × Timely c max_skew stamp))
