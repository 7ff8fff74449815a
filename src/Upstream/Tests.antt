-- ===== src/Upstream/Tests.antt =====
-- Runs of the two.
use tuzy.Shared.{
  ◌≢◌, not_same→≢, same_bytes, same_bytes→≡, Bool, false, ◌&&◌, subst, ◌≡◌, refl, sym, ap₂, ◌∙◌,
  true, false, inl, inr, Option, none, some, [], ◌∷◌, ◌++◌, starts_with,
}
use tuzy.Protocol.{Bytes}
use tuzy.Tunnel.CloseReason.{ascii_bytes}
use tuzy.Tunnel.Client.Backoff.{pos}
use tuzy.Upstream.{
  TargetLib, kind_http, Target, http_url, parse, Dirs, up, not_relative, resolve_project_dir,
}
use tuzy.Upstream.Inside.{
  IsPaths, IsPlace, IsCleaned, segments_of, IsOfProject, resolve_project_dir-IsOfProject,
}

abbrev ports : TargetLib
ports = record {
  trim_space = λ b. b;
  parse_url = λ b. none;
  atoi = λ b. some (pos 3000);
  split_host_port = λ b. none;
  on_windows = false;
}

abbrev port : Target
port = record { kind = kind_http; url = some (http_url (ascii_bytes "localhost:3000")); dir = [] }

takes_a_port : parse ports (ascii_bytes "3000") ≡ inr port
unfolding parse
takes_a_port = refl

abbrev site : Bytes
site = ascii_bytes "/site"

abbrev public : Bytes
public = ascii_bytes "/site/public"

-- A disk with two directories.
abbrev below_it : Bytes → Bytes → Bytes
below_it a [] = a
below_it a (b ∷ bs) = a ++ 47 ∷ b ∷ bs

abbrev disk_place : Bool → Bool → Option Bytes
disk_place true inner = some site
disk_place false true = some public
disk_place false false = none

abbrev disk_way : Bool → Option Bytes
disk_way true = some (ascii_bytes "public")
disk_way false = none

abbrev plain : Dirs
plain = record {
  is_abs = λ b. starts_with (ascii_bytes "/") b;
  abs = λ b. disk_place (same_bytes b site) (same_bytes b public);
  join = below_it;
  rel = λ base target. disk_way (same_bytes base site && same_bytes target public);
  eval_symlinks = λ b. some b;
  stat = λ b. some true;
  separator = 47;
}

some_eq : {a b : Bytes} → some a ≡ some b → a ≡ b
some_eq e = cc

never_given : {b : Bytes} → none ≡ some b → ⊥
never_given e = cc

disk_place-IsPlace : (x y : Bool) (b : Bytes) → disk_place x y ≡ some b → IsPlace plain b
disk_place-IsPlace true y b e = subst (IsPlace plain) (some_eq e) (refl, refl)
disk_place-IsPlace false true b e = subst (IsPlace plain) (some_eq e) (refl, refl)
disk_place-IsPlace false false b e = absurd (never_given e)

plain-IsPaths : IsPaths plain
unfolding segments_of
plain-IsPaths = record {
  abs_place = λ d b e. disk_place-IsPlace (same_bytes d site) (same_bytes d public) b e;
  eval_place = λ d b p e. subst (IsPlace plain) (some_eq e) p;
  rel_joins = λ base target way p q e.
      joins base target way (same_bytes base site) (same_bytes target public) refl refl e;
  rel_cleaned =
      λ base target way e. cleaned way (same_bytes base site && same_bytes target public) e;
}
  where
    joins :
        (base target way : Bytes) (x y : Bool)
        → same_bytes base site ≡ x
        → same_bytes target public ≡ y
        → disk_way (x && y) ≡ some way
        → below_it base way ≡ target
    joins base target way true true a b e =
        ap₂ below_it (same_bytes→≡ base site a) (sym (some_eq e))
        ∙ sym (same_bytes→≡ target public b)
    joins base target way true false a b e = absurd (never_given e)
    joins base target way false y a b e = absurd (never_given e)

    public_step : ascii_bytes "public" ≢ up
    public_step = not_same→≢ (ascii_bytes "public") up refl

    cleaned :
        (way : Bytes) (x : Bool)
        → disk_way x ≡ some way
        → IsCleaned ((segments_of 47 way).0 ∷ (segments_of 47 way).1)
    cleaned way true e =
        subst (λ w. IsCleaned ((segments_of 47 w).0 ∷ (segments_of 47 w).1)) (some_eq e)
          (inr (public_step, tt))
    cleaned way false e = absurd (never_given e)

serves_a_part : resolve_project_dir plain site (ascii_bytes "public") ≡ inr public
unfolding resolve_project_dir
serves_a_part = refl

resolve_project_dir-IsOfProject_example : IsOfProject plain site (ascii_bytes "public") public
resolve_project_dir-IsOfProject_example =
    resolve_project_dir-IsOfProject plain site (ascii_bytes "public") public plain-IsPaths
      serves_a_part

an_absolute_path_is_refused : resolve_project_dir plain site (ascii_bytes "/etc") ≡ inl not_relative
unfolding resolve_project_dir
an_absolute_path_is_refused = refl
