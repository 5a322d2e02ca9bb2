-- ===== src/Search/Work.antt =====
-- quail/cost/work.py: `Work`, with its sum and `dominates`. A count is a natural number of the unit
-- in which the planner's fractions are whole.
use quail.Prelude.{ℕ, ◌+◌, ◌*◌, ◌≡◌, Bool, true, ◌&&◌, leb, arith}

pub record Work : Type 0 where
  pub tokens : ℕ
  pub pairs : ℕ
  pub kv_written : ℕ
  pub kv_read : ℕ
  pub sliding_pairs : ℕ
  pub sliding_kv_read : ℕ
  pub state_written : ℕ
  pub state_read : ℕ
  pub sae_encoded : ℕ

-- `__add__`
abbrev pub plus : Work → Work → Work
plus a b = record {
  tokens = a.tokens + b.tokens;
  pairs = a.pairs + b.pairs;
  kv_written = a.kv_written + b.kv_written;
  kv_read = a.kv_read + b.kv_read;
  sliding_pairs = a.sliding_pairs + b.sliding_pairs;
  sliding_kv_read = a.sliding_kv_read + b.sliding_kv_read;
  state_written = a.state_written + b.state_written;
  state_read = a.state_read + b.state_read;
  sae_encoded = a.sae_encoded + b.sae_encoded;
}

-- `__mul__`
abbrev pub times : Work → ℕ → Work
times a count = record {
  tokens = a.tokens * count;
  pairs = a.pairs * count;
  kv_written = a.kv_written * count;
  kv_read = a.kv_read * count;
  sliding_pairs = a.sliding_pairs * count;
  sliding_kv_read = a.sliding_kv_read * count;
  state_written = a.state_written * count;
  state_read = a.state_read * count;
  sae_encoded = a.sae_encoded * count;
}

unfoldable pub dominates : Work → Work → Bool
dominates a b =
    leb a.tokens b.tokens
    && (leb a.pairs b.pairs
        && (leb a.kv_written b.kv_written
            && (leb a.kv_read b.kv_read
                && (leb a.sliding_pairs b.sliding_pairs
                    && (leb a.sliding_kv_read b.sliding_kv_read
                        && (leb a.state_written b.state_written
                            && (leb a.state_read b.state_read
                                && leb a.sae_encoded b.sae_encoded)))))))

pub dominates_self : (a : Work) → dominates a a ≡ true
unfolding dominates
dominates_self a = ground arith

pub dominates_trans :
    (a b c : Work) → dominates a b ≡ true → dominates b c ≡ true → dominates a c ≡ true
unfolding dominates
dominates_trans a b c p q = ground arith

-- A record that is no larger stays so when the same work is added to both.
pub dominates-plus :
    (a b more : Work) → dominates a b ≡ true → dominates (plus a more) (plus b more) ≡ true
unfolding dominates
dominates-plus a b more p = ground arith
