-- ===== src/Proxy/Idle/ReadOnly.antt =====
-- A session of a read-only pool, over the outer loop of
-- crates/halephant-core/src/proxy/transaction.rs.
use halephant.Config.Types.{ListenMode}
use halephant.Prelude.{ℕ, ◌≡◌, true, false, List, Text, All}
use halephant.Proxy.Idle.{
  Phase, at_rest, asking, holding, Happening, event, granted, refused, Handed, nothing, checked_in,
  dropped,
}
use halephant.Proxy.Messages.{Front}
use halephant.Proxy.Transaction.{is_read_write_override_msg}
use halephant.Proxy.Transaction.ReadOnly.{IsKept, IsKnown, IsKnownEvent, IsSafeFront, IsHeld}
use halephant.Sql.Tokens.{Token}

module _ (lex : Text → List Token) (sha256 : List ℕ → List ℕ) (mode : ListenMode)
    (known : Text → Type 0) where
  -- The client and what it holds.
  abbrev IsSafeClient : Front → Type 0
  IsSafeClient = IsSafeFront lex sha256 mode known

  -- A connection is asked for and held for a read-only transaction, nothing on it leaves the read-only
  -- mode, and neither does what the client's names stand for.
  abbrev pub IsSafe : Phase → Type 0
  IsSafe (at_rest c) = IsSafeFront lex sha256 mode known c
  IsSafe (asking c m ro) =
      (ro ≡ true)
      × (is_read_write_override_msg lex m ≡ false)
      × IsKnown known m
      × IsSafeFront lex sha256 mode known c
  IsSafe (holding a ro) = (ro ≡ true) × IsHeld lex sha256 mode known a
  IsSafe p = Unit

  abbrev pub IsSafeHanded : Handed → Type 0
  IsSafeHanded nothing = Unit
  IsSafeHanded (checked_in s) = All (IsKept lex) s.sent
  IsSafeHanded (dropped s) = All (IsKept lex) s.sent

  -- A connection that is granted carries no such message yet.
  abbrev pub IsSafeHappening : Happening → Type 0
  IsSafeHappening (event e) = IsKnownEvent known e
  IsSafeHappening (granted s) = All (IsKept lex) s.sent
  IsSafeHappening refused = Unit
