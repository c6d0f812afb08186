-- ===== src/Env/Spellings.antt =====
-- pkg/env/environment.go: a host with or without a scheme, and a port with or without a colon.
use Prim.Native.Char.{code}
use Prim.Native.String.{◌++◌, char_at}
use text.Mathlib.TextLemmas.{cons-append}
use mathlib.Core.List.{Memᴰ}
use chatflow.Prelude.{
  Option, some, String, ◌≡◌, refl, ◌∙◌, Bool, true, false, none, List, [], ◌∷◌, arith, eqb,
  if◌then◌else◌,
}
use chatflow.Prelude.Seq.{All, All-Memᴰ}
use chatflow.Prelude.Trim.{
  is_space, NoSpace, behind, trim_suffix, trim_space-NoSpace, append-NoSpace, trim_prefix-append,
  trim_prefix-absent, trim_suffix-append,
}
use chatflow.Env.{
  Environment, atoi_with_default, clean_host, clean_port, load_env_from_file, rabbit_env_of,
  load_server_env,
}

-- Two texts of which neither is the beginning of the other.
diverge : String → String → Bool
diverge String.[] q = false
diverge (String.◌∷◌ c p) String.[] = false
diverge (String.◌∷◌ c p) (String.◌∷◌ d q) =
    let rest = diverge p q in if eqb (code c) (code d) then rest else true

behind-diverge : (p q s : String) → diverge p q ≡ true → behind p (q ++ s) ≡ none
unfolding behind diverge
behind-diverge String.[] q s h = cc
behind-diverge (String.◌∷◌ c p) String.[] s h = cc
behind-diverge (String.◌∷◌ c p) (String.◌∷◌ d q) s h =
    rw (cons-append d q s) (ground (arith, behind-diverge p q s))

-- What is no prefix of the longer text is none of the shorter.
behind-shorter : (p s t : String) → behind p (s ++ t) ≡ none → behind p s ≡ none
unfolding behind
behind-shorter String.[] s t h = cc
behind-shorter (String.◌∷◌ c p) String.[] t h = refl
behind-shorter (String.◌∷◌ c p) (String.◌∷◌ d s) t h =
    let h' = rw (cons-append d s t) at h in ground (arith, behind-shorter p s t)

-- A text without spaces that does not begin with one of the schemes, also with a slash behind it,
-- and does not end with a slash.
pub record IsHost (h : String) : Type 0 where
  pub no_space : NoSpace h
  pub no_http : behind "http://" (h ++ "/") ≡ none
  pub no_https : behind "https://" (h ++ "/") ≡ none
  pub no_slash : trim_suffix h "/" ≡ h

pub record IsPort (p : String) : Type 0 where
  pub no_space : NoSpace p
  pub no_colon : behind ":" p ≡ none

abbrev pub host_spellings : String → List String
host_spellings h =
    h
    ∷ ("http://" ++ h)
    ∷ ("https://" ++ h)
    ∷ (h ++ "/")
    ∷ ("http://" ++ (h ++ "/"))
    ∷ ("https://" ++ (h ++ "/"))
    ∷ []

abbrev pub port_spellings : String → List String
port_spellings p = p ∷ (":" ++ p) ∷ []

-- The three spellings of a text that is behind its scheme.
scheme_dropped :
    (h : String)
    → NoSpace h
    → behind "http://" h ≡ none
    → behind "https://" h ≡ none
    → All (λ t. clean_host t ≡ trim_suffix h "/") (h ∷ ("http://" ++ h) ∷ ("https://" ++ h) ∷ [])
unfolding clean_host
scheme_dropped h s a b = (
  rw (trim_space-NoSpace h s, trim_prefix-absent "http://" h a, trim_prefix-absent "https://" h b)
      refl,
  (
    rw
        (
          trim_space-NoSpace ("http://" ++ h) (
              append-NoSpace "http://" h
                (unfold is_space in (refl, (refl, (refl, (refl, (refl, (refl, (refl, tt)))))))) s),
          trim_prefix-append "http://" h,
          trim_prefix-absent "https://" h b,
        )
        refl,
    (
      rw
          (
            trim_space-NoSpace ("https://" ++ h) (
                append-NoSpace "https://" h
                  (unfold is_space in
                    (refl, (refl, (refl, (refl, (refl, (refl, (refl, (refl, tt)))))))))
                  s),
            trim_prefix-absent "http://" ("https://" ++ h)
                (behind-diverge "http://" "https://" h (unfold diverge in refl)),
            trim_prefix-append "https://" h,
          )
          refl,
      tt,
    ),
  ),
)

clean_host-spellings : (h : String) → IsHost h → All (λ t. clean_host t ≡ h) (host_spellings h)
clean_host-spellings h i =
    let (a, (b, (c, _))) =
      scheme_dropped h i.no_space (behind-shorter "http://" h "/" i.no_http)
        (behind-shorter "https://" h "/" i.no_https) in
    let (d, (e, (f, _))) =
      scheme_dropped (h ++ "/") (append-NoSpace h "/" i.no_space (unfold is_space in (refl, tt)))
        i.no_http i.no_https in
    let bare = i.no_slash in
    let slash = trim_suffix-append h (char_at "/" 0) in
    (a ∙ bare, (b ∙ bare, (c ∙ bare, (d ∙ slash, (e ∙ slash, (f ∙ slash, tt))))))

clean_port-spellings : (p : String) → IsPort p → All (λ t. clean_port t ≡ p) (port_spellings p)
unfolding clean_port
clean_port-spellings p i = (
  rw (trim_space-NoSpace p i.no_space, trim_prefix-absent ":" p i.no_colon) refl,
  (
    rw
        (
          trim_space-NoSpace (":" ++ p)
              (append-NoSpace ":" p (unfold is_space in (refl, tt)) i.no_space),
          trim_prefix-append ":" p,
        )
        refl,
    tt,
  ),
)

-- For a host without spaces that begins with neither scheme, also with a slash behind it, and does
-- not end with a slash, and a port without spaces that does not begin with a colon: if the files
-- lead to an environment, and this has the host alone or with http:// or https:// before it or a
-- slash behind it, and the port with or without a colon, then `LoadServerEnv` makes the
-- configuration with that host and that port and with what the environment has for the rest.
pub load_server_env-spellings :
    (load : String → Option Environment) (env : Environment) (h p : String)
    → IsHost h
    → IsPort p
    → load_env_from_file load ≡ some env
    → Memᴰ (env "SERVER_HOST") (host_spellings h)
    → Memᴰ (env "PORT") (port_spellings p)
    → load_server_env load
      ≡ some
          (record { name = env "NAME"; port = p; server_host = h; rabbit_env = rabbit_env_of env })
unfolding load_server_env atoi_with_default
load_server_env-spellings load env h p i j found host port =
    rw
      (
        load_server_env,
        found,
        All-Memᴰ (λ t. clean_host t ≡ h) (host_spellings h) (clean_host-spellings h i) host,
        All-Memᴰ (λ t. clean_port t ≡ p) (port_spellings p) (clean_port-spellings p j) port,
      )
      refl
