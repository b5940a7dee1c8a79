-- ===== src/Gateway/BuildSession/Slugs.antt =====
-- The slugs of the connections.
use orbeat_community.Prelude.{
  String, ◌≡◌, ◌≢◌, sym, inl, inr, some, List, [], ◌∷◌, ◌++◌, subst, All, Among,
}
use orbeat_community.Prelude.Assoc.{Assoc, lookup}
use orbeat_community.Gateway.BuildSession.{UpstreamConn}

abbrev pub IsNamed : Assoc String → UpstreamConn → Type 0
IsNamed slugs conn = lookup conn.slug slugs ≡ some conn.server_id

-- No two connections have one slug.
abbrev pub DistinctSlugs : List UpstreamConn → Type 0
DistinctSlugs [] = Unit
DistinctSlugs (c ∷ conns) = All (λ d. d.slug ≢ c.slug) conns × DistinctSlugs conns

pub All-snoc :
    (P : UpstreamConn → Type 0) (xs : List UpstreamConn) (x : UpstreamConn)
    → All P xs
    → P x
    → All P (xs ++ x ∷ [])
All-snoc P [] x h new = (new, tt)
All-snoc P (y ∷ xs) x (here, h) new = (here, All-snoc P xs x h new)

pub All-weaken :
    (P Q : UpstreamConn → Type 0) (xs : List UpstreamConn)
    → ((x : UpstreamConn) → P x → Q x)
    → All P xs
    → All Q xs
All-weaken P Q [] f h = tt
All-weaken P Q (x ∷ xs) f (here, h) = (f x here, All-weaken P Q xs f h)

pub DistinctSlugs-snoc :
    (xs : List UpstreamConn) (x : UpstreamConn)
    → All (λ d. d.slug ≢ x.slug) xs
    → DistinctSlugs xs
    → DistinctSlugs (xs ++ x ∷ [])
DistinctSlugs-snoc [] x apart h = (tt, tt)
DistinctSlugs-snoc (y ∷ xs) x (here, apart) (first, h) = (
  All-snoc (λ d. d.slug ≢ y.slug) xs x first (λ e. here (sym e)),
  DistinctSlugs-snoc xs x apart h,
)

pub All-Among : {A : Type 0} (P : A → Type 0) (xs : List A) (x : A) → All P xs → Among x xs → P x
All-Among P [] x h there = absurd there
All-Among P (y ∷ xs) x (here, h) (inl e) = subst P e here
All-Among P (y ∷ xs) x (here, h) (inr later) = All-Among P xs x h later
