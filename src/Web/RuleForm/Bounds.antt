-- ===== src/Web/RuleForm/Bounds.antt =====
-- The number of conditions in the form of a rule (apps/web/src/app/(app)/mail/rules/page.tsx).
use my_account_controller.Common.{
  ℕ, zero, suc, ◌+◌, ◌≤◌, ◌<◌, ◌≡◌, refl, arith, List, [], ◌∷◌, ◌++◌, Text, length,
}
use my_account_controller.Mail.Rules.{ConditionData, RuleData}
use my_account_controller.Web.RuleForm.{
  Form, Patch, Step, Reach, change, add, remove, send, answer_ok, answer_err, here, later,
  update_at, remove_at, update_condition, add_condition, remove_condition, submit, saved, refused,
  new_form, blank,
}

abbrev pub Fits : ℕ → Type 0
Fits n = (1 ≤ n) × (n ≤ 5)

abbrev pub AllFit : List RuleData → Type 0
AllFit [] = Unit
AllFit (d ∷ ds) = Fits (length d.conditions) × AllFit ds

-- The form has one to five conditions, and so has every body that it sent.
pub record IsBounded (f : Form) : Type 0 where
  pub now : Fits (length f.conditions)
  pub before : AllFit f.sent

length-update_at :
    (i : ℕ) (p : Patch) (cs : List ConditionData) → length (update_at i p cs) ≡ length cs
unfolding update_at
length-update_at i p [] = refl
length-update_at zero p (c ∷ cs) = refl
length-update_at (suc i) p (c ∷ cs) = ground (arith, length-update_at i p cs)

length-remove_at :
    (i : ℕ) (cs : List ConditionData) → i < length cs → length (remove_at i cs) + 1 ≡ length cs
unfolding remove_at
length-remove_at i [] h = absurd (ground arith)
length-remove_at zero (c ∷ cs) h = ground arith
length-remove_at (suc i) (c ∷ cs) h = ground (arith, length-remove_at i cs)

length-snoc :
    (cs : List ConditionData) (c : ConditionData) → length (cs ++ (c ∷ [])) ≡ length cs + 1
length-snoc [] c = refl
length-snoc (d ∷ cs) c = ground (arith, length-snoc cs c)

Step-IsBounded : {f g : Form} → Step f g → IsBounded f → IsBounded g
unfolding update_condition add_condition remove_condition submit saved refused
Step-IsBounded (change f i p) v = ground (arith, length-update_at i p f.conditions)
Step-IsBounded (add f room) v = ground (arith, length-snoc f.conditions blank)
Step-IsBounded (remove f i within more) v = ground (arith, length-remove_at i f.conditions within)
Step-IsBounded (send f action operator idle) v = ground arith
Step-IsBounded (answer_ok f busy) v = ground arith
Step-IsBounded (answer_err f message busy) v = ground arith

-- However the form is used, it keeps one to five conditions, and every rule that it sends has one
-- to five, if the rule that it was opened for had.
pub Reach-IsBounded : {f g : Form} → IsBounded f → Reach f g → IsBounded g
Reach-IsBounded v here = v
Reach-IsBounded v (later r s) = Step-IsBounded s (Reach-IsBounded v r)

pub new_form-IsBounded : (email_account_id : Text) → IsBounded (new_form email_account_id)
unfolding new_form
new_form-IsBounded id = ground arith
