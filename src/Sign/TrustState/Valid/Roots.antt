-- ===== src/Sign/TrustState/Valid/Roots.antt =====
-- The loop over the root fingerprints checks their sizes and that no two are equal.
use power_manage.Shared.{
  ◌≡◌, refl, sym, ◌≢◌, false, List, [], ◌∷◌, ◌++◌, ok, arith, length, All, any, All-append,
  All-const, All-append_left, All-append_right, All-map, All-and,
}
use power_manage.Shared.Bytes.{Bytes, bytes_eq, bytes_eq_iff}
use power_manage.Sign.TrustState.{check_roots}

abbrev pub AllDistinct : List Bytes → Type 0
AllDistinct [] = Unit
AllDistinct (x ∷ xs) = All (λ y. x ≢ y) xs × AllDistinct xs

-- `f` is none of the fingerprints `earlier`.
abbrev IsNew : List Bytes → Bytes → Type 0
IsNew earlier f = All (λ e. f ≢ e) earlier

any-IsNew : (f : Bytes) (es : List Bytes) → any (bytes_eq f) es ≡ false → IsNew es f
any-IsNew f [] h = tt
any-IsNew f (e ∷ es) h = ((λ p. ground (arith, bytes_eq_iff f e)), any-IsNew f es (ground arith))

IsNew-any : (f : Bytes) (es : List Bytes) → IsNew es f → any (bytes_eq f) es ≡ false
IsNew-any f [] h = refl
IsNew-any f (e ∷ es) h = ground (arith, bytes_eq_iff f e, h.0, IsNew-any f es h.1)

abbrev Size32 : Bytes → Type 0
Size32 f = length f ≡ 32

-- New against a longer list: new against the list before and against its last entry.
IsNew-split :
    (earlier : List Bytes) (f g : Bytes) → IsNew (earlier ++ f ∷ []) g → IsNew earlier g × (f ≢ g)
IsNew-split earlier f g n = (
  All-append_left (λ e. g ≢ e) earlier (f ∷ []) n,
  λ e. (All-append_right (λ e. g ≢ e) earlier (f ∷ []) n).0 (sym e),
)

IsNew-join :
    (earlier : List Bytes) (f g : Bytes) → IsNew earlier g × (f ≢ g) → IsNew (earlier ++ f ∷ []) g
IsNew-join earlier f g h = All-append (λ e. g ≢ e) earlier (f ∷ []) h.0 ((λ e. h.1 (sym e)), tt)

pub check_roots-distinct :
    (earlier fs : List Bytes)
    → check_roots earlier fs ≡ ok tt
    → All Size32 fs × All (IsNew earlier) fs × AllDistinct fs
unfolding check_roots
check_roots-distinct earlier [] h = (tt, tt, tt)
check_roots-distinct earlier (f ∷ fs) h =
    let (sizes, new, distinct) = check_roots-distinct (earlier ++ f ∷ []) fs (ground arith) in
    (
      (ground arith, sizes),
      (
        any-IsNew f earlier (ground arith),
        All-map (IsNew (earlier ++ f ∷ [])) (IsNew earlier) fs
            (λ g n. (IsNew-split earlier f g n).0) new,
      ),
      (
        All-map (IsNew (earlier ++ f ∷ [])) (λ g. f ≢ g) fs (λ g n. (IsNew-split earlier f g n).1)
            new,
        distinct,
      ),
    )

distinct-check_roots :
    (earlier fs : List Bytes)
    → All Size32 fs
    → All (IsNew earlier) fs
    → AllDistinct fs
    → check_roots earlier fs ≡ ok tt
unfolding check_roots
distinct-check_roots earlier [] s n d = refl
distinct-check_roots earlier (f ∷ fs) s n d =
    let both = All-and (IsNew earlier) (λ g. f ≢ g) fs n.1 d.0 in
    let new =
      All-map (λ g. IsNew earlier g × (f ≢ g)) (IsNew (earlier ++ f ∷ [])) fs (IsNew-join earlier f)
        both in
    ground
      (arith, s.0, IsNew-any f earlier n.0, distinct-check_roots (earlier ++ f ∷ []) fs s.1 new d.1)

-- The whole loop: it starts with no earlier fingerprint.
pub check_roots-All : (fs : List Bytes) → All Size32 fs → AllDistinct fs → check_roots [] fs ≡ ok tt
check_roots-All fs s d = distinct-check_roots [] fs s (All-const (IsNew []) fs (λ f. tt)) d
