-- ===== src/Statements/Replies/Link/Held.antt =====
-- What the server holds once it has worked off the messages in flight, or those that it does not skip.
use halephant.Prelude.{
  ◌≡◌, ◌++◌, refl, ite, Bool, true, false, List, [], ◌∷◌, Text, text_eq, text_dec, arith,
}
use halephant.Statements.Replies.Link.{
  Backend, Sent, parse, evict, close_portal, discard, sync, after_sync, apply, apply_all,
}
use halephant.Statements.Replies.Link.Aligned.{pending_parses}
use halephant.Statements.Replies.{ParseReply}

-- The name is among the unconfirmed.
abbrev pub named : Text → List ParseReply → Bool
named n [] = false
named n (r ∷ rest) = ite (text_dec r.canon n) true (named n rest)

module _ (b : Backend) where
  pub apply_all-append :
      (s : b.State) (xs ys : List Sent)
      → apply_all b s (xs ++ ys) ≡ apply_all b (apply_all b s xs) ys
  apply_all-append s [] ys = refl
  apply_all-append s (m ∷ xs) ys = apply_all-append (apply b s m) xs ys

  -- A name that no message in flight prepares, and that the server would hold after them, it
  -- holds already.
  pub held_before :
      (s : b.State) (xs : List Sent) (n : Text)
      → named n (pending_parses xs) ≡ false
      → b.holds (apply_all b s xs) n ≡ true
      → b.holds s n ≡ true
  held_before s [] n p h = h
  held_before s (parse r c ∷ xs) n p h =
      ground (arith, held_before (b.parse c s) xs n, b.holds-parse c n s)
  held_before s (evict c ∷ xs) n p h =
      ground (arith, held_before (b.close c s) xs n p h, b.holds-close c n s)
  held_before s (close_portal ∷ xs) n p h = held_before s xs n p h
  held_before s (discard ∷ xs) n p h =
      ground (arith, held_before (b.discard s) xs n p h, b.holds-discard n s)
  held_before s (sync ∷ xs) n p h = held_before s xs n p h

  -- A name that would be held from one state on is held from any state that holds it sooner.
  pub held_mono :
      (s t : b.State) (xs : List Sent) (n : Text)
      → (b.holds s n ≡ true → b.holds t n ≡ true)
      → b.holds (apply_all b s xs) n ≡ true
      → b.holds (apply_all b t xs) n ≡ true
  held_mono s t [] n f h = f h
  held_mono s t (parse r c ∷ xs) n f h =
      held_mono (b.parse c s) (b.parse c t) xs n
        (λ k. ground (arith, f, b.holds-parse c n s, b.holds-parse c n t)) h
  held_mono s t (evict c ∷ xs) n f h =
      held_mono (b.close c s) (b.close c t) xs n
        (λ k. ground (arith, f, b.holds-close c n s, b.holds-close c n t)) h
  held_mono s t (close_portal ∷ xs) n f h = held_mono s t xs n f h
  held_mono s t (discard ∷ xs) n f h =
      held_mono (b.discard s) (b.discard t) xs n
        (λ k. ground (arith, b.holds-discard n s, b.holds-discard n t)) h
  held_mono s t (sync ∷ xs) n f h = held_mono s t xs n f h

  -- So it is when the server skips up to the next `Sync`.
  pub held_skipped :
      (s : b.State) (xs : List Sent) (n : Text)
      → named n (pending_parses xs) ≡ false
      → b.holds (apply_all b s xs) n ≡ true
      → b.holds (apply_all b s (after_sync xs)) n ≡ true
  held_skipped s [] n p h = h
  held_skipped s (parse r c ∷ xs) n p h =
      held_mono (b.parse c s) s (after_sync xs) n (λ k. ground (arith, b.holds-parse c n s))
        (held_skipped (b.parse c s) xs n (ground arith) h)
  held_skipped s (evict c ∷ xs) n p h =
      held_mono (b.close c s) s (after_sync xs) n (λ k. ground (arith, b.holds-close c n s))
        (held_skipped (b.close c s) xs n p h)
  held_skipped s (close_portal ∷ xs) n p h = held_skipped s xs n p h
  held_skipped s (discard ∷ xs) n p h =
      held_mono (b.discard s) s (after_sync xs) n (λ k. ground (arith, b.holds-discard n s))
        (held_skipped (b.discard s) xs n p h)
  held_skipped s (sync ∷ xs) n p h = h
