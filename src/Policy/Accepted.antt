-- ===== src/Policy/Accepted.antt =====
-- What `__post_init__` of src/relinker/policy.py accepts.
use relinker.Prelude.{◌≡◌, refl, false, ◌&&◌, ◌||◌, ltb}
use relinker.Python.{Python, return}
use relinker.Policy.{
  RetryPolicy, post_init, explicit_exhaustion_behaviors, is_blank_name, is_bad_limit, is_bad_budget,
}

module _ ⦃py : Python⦄ where
  -- At most one way to end an exhausted execution, a usable history limit, and a budget with its
  -- key or neither.
  pub record IsAccepted (p : RetryPolicy) : Type 0 where
    pub named : is_blank_name p.name ≡ false
    pub limited : is_bad_limit p.history_limit ≡ false
    pub budgeted : is_bad_budget p.retry_budget p.retry_budget_key ≡ false
    pub exclusive :
        (ltb 1 (explicit_exhaustion_behaviors p)
          || (p.should_raise_last && ltb 0 (explicit_exhaustion_behaviors p)))
        ≡ false

  pub post_init_of : (p : RetryPolicy) → IsAccepted p → post_init p ≡ return p
  unfolding post_init
  post_init_of p h = rw (h.named, h.limited, h.budgeted, h.exclusive) refl
