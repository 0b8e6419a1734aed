-- ===== src/Tests/Writes.antt =====
-- `write_atomic` of src/cache.rs over files that are a function from names: a file is replaced.
use waltier.Base.{
  is_some, ℕ, ◌≡◌, refl, sym, ap, ◌∙◌, Option, none, some, List, [], ◌∷◌, ◌++◌, Result, ok, err,
  arith, Option-cases, Bool-cases, inl, inr, if◌then◌else◌,
}
use mathlib.Core.List.{flatten}
use waltier.Base.Bytes.{Bytes}
use waltier.Base.Text.{Str, str_eq, str_eq_iff, str_eq_refl}
use waltier.Cache.Atomic.{Creation, Filing, temp_name, write_atomic}
use waltier.Cache.Atomic.Published.{IsFiling, Published, write_atomic-Published}

abbrev Names : Type 0
Names = Str → Option Bytes

upd : Str → Option Bytes → Names → Names
upd p v w q = if str_eq p q then v else w q

upd_here : (p : Str) (v : Option Bytes) (w : Names) → upd p v w p ≡ v
unfolding upd
upd_here p v w = rw str_eq_refl refl

upd_other : (p q : Str) (v : Option Bytes) (w : Names) → ¬ (q ≡ p) → upd p v w q ≡ w q
unfolding upd
upd_other p q v w other = elim (Bool-cases (str_eq p q)) [
  | inl same ↦ absurd (other (sym ((str_eq_iff p q).0 same)))
  | inr differ ↦ rw differ refl
]

abbrev no_file : Str
no_file = b'?' ∷ []

abbrev functional : Filing Names
functional = record {
  pid = 7;
  create_new = λ p w. elim (w p) [
    | none ↦ (Creation.created, upd p (some []) w)
    | some x ↦ (Creation.exists, w)
  ];
  write_all =
      λ p b w. elim (w p) [ none ↦ (err no_file, w) | some x ↦ (ok tt, upd p (some (x ++ b)) w) ];
  rename = λ p q w. elim (w p) [
    | none ↦ (err no_file, w)
    | some x ↦ (ok tt, upd p none (upd q (some x) w))
  ];
  remove_file = λ p w. upd p none w;
}

abbrev contents : Str → Names → Option Bytes
contents p w = w p

abbrev some_or : Bytes → Option Bytes → Bytes
some_or d none = d
some_or d (some x) = x

functional-IsFiling : IsFiling functional contents
functional-IsFiling = record {
  creates = λ p w. elim (Option-cases (w p)) [
    | inl gone ↦ rw gone (gone, upd_here p (some []) w, λ q other. upd_other p q (some []) w other)
    | inr (x, is) ↦ rw is (ap is_some is, λ q. refl)
  ];
  writes = λ p b w. elim (Option-cases (w p)) [
    | inl gone ↦ rw gone (λ q other. refl)
    | inr (x, is) ↦ rw is (
      λ old e. upd_here p (some (x ++ b)) w ∙ ap (λ o. some (some_or x o ++ b)) (sym is ∙ e),
      λ q other. upd_other p q (some (x ++ b)) w other,
    )
  ];
  renames = λ p q w differ. elim (Option-cases (w p)) [
    | inl gone ↦ rw gone (λ r. refl)
    | inr (x, is) ↦ rw is (
      upd_other p q none (upd q (some x) w) (λ same. differ (sym same))
          ∙ upd_here q (some x) w
          ∙ sym is,
      λ r other other'.
          upd_other p r none (upd q (some x) w) other ∙ upd_other q r (some x) w other',
    )
  ];
  removes = λ p w q other. upd_other p q none w other;
}

abbrev path : Str
path = b'x' ∷ []

abbrev before : Names
before = upd path (some (b'o' ∷ [])) (λ q. none)

abbrev parts : List Bytes
parts = (b'n' ∷ []) ∷ (b'e' ∷ b'w' ∷ []) ∷ []

temp_free : before (temp_name [] 7 none) ≡ none
unfolding upd str_eq temp_name
temp_free = refl

abbrev first_or : ℕ → Str → ℕ
first_or d [] = d
first_or d (c ∷ s) = c

temp_head : (n : Option ℕ) → first_or 0 (temp_name [] 7 n) ≡ b'/'
unfolding temp_name
temp_head none = refl
temp_head (some s) = refl

not_temp : (n : Option ℕ) → ¬ (temp_name [] 7 n ≡ path)
not_temp n same =
    let clash : b'/' ≡ b'x' = sym (temp_head n) ∙ ap (first_or 0) same in omega (arith, clash)

write_atomic-Published_example :
    (answer : Result Str (Unit {0}) × ℕ × Names) × (write_atomic functional 2 [] path parts 0 before
      ≡ some answer)
    × Published functional contents functional-IsFiling path
        (flatten parts)
        before
        (answer.0, answer.2)
write_atomic-Published_example =
    write_atomic-Published functional contents functional-IsFiling 2 0 0 [] path parts before
      (omega arith) temp_free not_temp
