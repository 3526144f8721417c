-- ===== src/Lua/Queue/Line.antt =====
-- The waiting room as a line of members, without scores: what it promises while the sale is open.
use antretix.Common.{
  ℕ, zero, suc, ◌≡◌, refl, ap, Bool, false, ◌||◌, List, [], ◌∷◌, ◌++◌, map, drop, if◌then◌else◌,
  Bool-cases, inl, inr,
}
use antretix.Redis.{Entry, Member, member_eq, has, without}

abbrev pub is_in_line : Member → List Member → Bool
is_in_line m [] = false
is_in_line m (n ∷ ns) = member_eq m n || is_in_line m ns

abbrev pub out_of_line : Member → List Member → List Member
out_of_line m [] = []
out_of_line m (n ∷ ns) = if member_eq m n then out_of_line m ns else n ∷ out_of_line m ns

-- The members of a queue, from the front.
abbrev pub line_of : List Entry → List Member
line_of es = map (λ e. e.member) es

pub line_of-append :
    (es : List Entry) (e : Entry) → line_of (es ++ e ∷ []) ≡ line_of es ++ e.member ∷ []
line_of-append [] e = refl
line_of-append (x ∷ es) e = ap (λ t. x.member ∷ t) (line_of-append es e)

pub line_of-drop : (n : ℕ) (es : List Entry) → line_of (drop n es) ≡ drop n (line_of es)
line_of-drop zero es = refl
line_of-drop (suc n) [] = refl
line_of-drop (suc n) (e ∷ es) = line_of-drop n es

pub line_of-without :
    (m : Member) (es : List Entry) → line_of (without m es) ≡ out_of_line m (line_of es)
line_of-without m [] = refl
line_of-without m (e ∷ es) = elim (Bool-cases (member_eq m e.member)) [
  | inl hit ↦ rw hit (line_of-without m es)
  | inr miss ↦ rw miss (ap (λ t. e.member ∷ t) (line_of-without m es))
]

pub is_in_line-line_of : (m : Member) (es : List Entry) → is_in_line m (line_of es) ≡ has m es
is_in_line-line_of m [] = refl
is_in_line-line_of m (e ∷ es) = ap (λ b. member_eq m e.member || b) (is_in_line-line_of m es)
