-- ===== src/Cli/Launch/Flags.antt =====
-- src/main.rs: what the flags of the background process determine.
use cicache.Prelude.{
  arith, ℕ, ◌≡◌, ◌≢◌, refl, sym, ap, ◌∙◌, Bool, true, false, Option, List, [], ◌∷◌, ◌++◌,
  append-nil, map,
}
use cicache.Text.Utf8.{Bytes, codes}
use cicache.Text.Compare.{same, same_refl}
use cicache.Text.Number.{decimal}
use cicache.Text.Number.Laws.{decimal_injective, lacks-decimal}
use cicache.Text.Lines.Ended.{AllLack, join_injective}
use cicache.Cli.Launch.{ProxyArgs, scope_of, flag, joined, to_run_args}

-- Two runs have the same settings and files.
pub record Agree (var : Bytes → Option Bytes) (a b : ProxyArgs) (dir other : Bytes) : Type 0 where
  pub dirs : dir ≡ other
  pub ports : a.port ≡ b.port
  pub min_sizes : a.min_size ≡ b.min_size
  pub max_sizes : a.max_size ≡ b.max_size
  pub min_max_ages : a.min_max_age ≡ b.min_max_age
  pub concurrencies : a.upload_concurrency ≡ b.upload_concurrency
  pub prefixes : a.key_prefix ≡ b.key_prefix
  pub scopes : scope_of var a ≡ scope_of var b
  pub thresholds : a.pack_threshold ≡ b.pack_threshold
  pub limits : a.pack_limit ≡ b.pack_limit
  pub cache_alls : a.cache_all ≡ b.cache_all
  pub authorized : a.cache_authorized ≡ b.cache_authorized
  pub redirects : a.no_follow_redirects ≡ b.no_follow_redirects
  pub bypasses : a.bypass ≡ b.bypass
  pub tunnels : a.mitm_ports ≡ b.mitm_ports

-- The list begins with the name.
leads : Bytes → List Bytes → Bool
leads name [] = false
leads name (x ∷ xs) = same x name

-- A list that begins with the name is no list that does not.
led : (name : Bytes) (r s : List Bytes) → leads name s ≡ false → name ∷ r ≢ s
unfolding leads
led name r s h e = cc (h, ap (leads name) e, same_refl name)

flag_injective :
    (b c : Bool) (name : Bytes) (r s : List Bytes)
    → leads name r ≡ false
    → leads name s ≡ false
    → flag b name ++ r ≡ flag c name ++ s
    → (b ≡ c) × (r ≡ s)
flag_injective true true name r s hr hs e = (refl, cc)
flag_injective false false name r s hr hs e = (refl, e)
flag_injective true false name r s hr hs e = absurd (led name r s hs e)
flag_injective false true name r s hr hs e = absurd (led name s r hr (sym e))

joined_injective :
    (name : Bytes) (js ks r s : List Bytes)
    → AllLack 44 js
    → AllLack 44 ks
    → leads name r ≡ false
    → leads name s ≡ false
    → joined name js ++ r ≡ joined name ks ++ s
    → (js ≡ ks) × (r ≡ s)
joined_injective name [] [] r s all_js all_ks hr hs e = (refl, e)
joined_injective name (j ∷ js) [] r s all_js all_ks hr hs e = absurd (led name _ s hs e)
joined_injective name [] (k ∷ ks) r s all_js all_ks hr hs e = absurd (led name _ r hr (sym e))
joined_injective name (j ∷ js) (k ∷ ks) r s all_js all_ks hr hs e =
    (join_injective 44 j k js ks all_js all_ks (cc), cc)

leads-flag :
    (name other : Bytes) (b : Bool) (r : List Bytes)
    → same other name ≡ false
    → leads name r ≡ false
    → leads name (flag b other ++ r) ≡ false
unfolding leads
leads-flag name other true r apart h = apart
leads-flag name other false r apart h = h

leads-joined :
    (name other : Bytes) (ks r : List Bytes)
    → same other name ≡ false
    → leads name r ≡ false
    → leads name (joined other ks ++ r) ≡ false
unfolding leads
leads-joined name other [] r apart h = h
leads-joined name other (k ∷ ks) r apart h = apart

decimals_lack : (ports : List ℕ) → AllLack 44 (map decimal ports)
decimals_lack [] = tt
decimals_lack (port ∷ ports) = (lacks-decimal 44 port (omega arith), decimals_lack ports)

decimals_injective : (ms ns : List ℕ) → map decimal ms ≡ map decimal ns → ms ≡ ns
decimals_injective [] [] e = refl
decimals_injective [] (n ∷ ns) e = cc
decimals_injective (m ∷ ms) [] e = cc
decimals_injective (m ∷ ms) (n ∷ ns) e =
    cc (decimal_injective m n (cc), decimals_injective ms ns (cc))

abbrev lists : ProxyArgs → List Bytes
lists a =
    joined (codes "--bypass") a.bypass ++ joined (codes "--mitm-ports") (map decimal a.mitm_ports)

led_by_bypass :
    (a : ProxyArgs)
    → leads (codes "--bypass") (joined (codes "--mitm-ports") (map decimal a.mitm_ports)) ≡ false
unfolding leads same
led_by_bypass a = go (map decimal a.mitm_ports)
  where
    go : (ks : List Bytes) → leads (codes "--bypass") (joined (codes "--mitm-ports") ks) ≡ false
    go [] = refl
    go (k ∷ ks) = refl

lists_injective :
    (a b : ProxyArgs)
    → AllLack 44 a.bypass
    → AllLack 44 b.bypass
    → lists a ≡ lists b
    → (a.bypass ≡ b.bypass) × (a.mitm_ports ≡ b.mitm_ports)
unfolding same leads
lists_injective a b lack_a lack_b e =
    let (bypasses, rest) =
      joined_injective (codes "--bypass") a.bypass b.bypass _ _ lack_a lack_b (led_by_bypass a)
        (led_by_bypass b) e in
    let (decimals, nothing) =
      joined_injective (codes "--mitm-ports") (map decimal a.mitm_ports) (map decimal b.mitm_ports)
        [] [] (decimals_lack a.mitm_ports) (decimals_lack b.mitm_ports) refl refl
        (append-nil _ ∙ rest ∙ sym (append-nil _)) in
    (bypasses, decimals_injective a.mitm_ports b.mitm_ports decimals)

leads-lists :
    (name : Bytes) (a : ProxyArgs)
    → same (codes "--bypass") name ≡ false
    → same (codes "--mitm-ports") name ≡ false
    → leads name (lists a) ≡ false
unfolding leads
leads-lists name a bypass tunnels = leads-joined name (codes "--bypass") a.bypass _ bypass (
    ap (leads name) (sym (append-nil _))
    ∙ leads-joined name (codes "--mitm-ports") (map decimal a.mitm_ports) [] tunnels refl)

abbrev switches : ProxyArgs → List Bytes
switches a =
    flag a.cache_all (codes "--cache-all")
    ++ (flag a.cache_authorized (codes "--cache-authorized")
        ++ (flag a.no_follow_redirects (codes "--no-follow-redirects") ++ lists a))

switches_injective :
    (a b : ProxyArgs)
    → switches a ≡ switches b
    → (a.cache_all ≡ b.cache_all)
      × (a.cache_authorized ≡ b.cache_authorized)
      × (a.no_follow_redirects ≡ b.no_follow_redirects)
      × (lists a ≡ lists b)
unfolding same
switches_injective a b e =
    let (all, rest) =
      flag_injective a.cache_all b.cache_all (codes "--cache-all") _ _ (not_all a) (not_all b) e in
    let (authorized, rest') =
      flag_injective a.cache_authorized b.cache_authorized (codes "--cache-authorized") _ _
        (not_authorized a) (not_authorized b) rest in
    let (redirects, rest'') =
      flag_injective a.no_follow_redirects b.no_follow_redirects (codes "--no-follow-redirects") _ _
        (leads-lists _ a refl refl) (leads-lists _ b refl refl) rest' in
    (all, authorized, redirects, rest'')
  where
    not_authorized :
        (a : ProxyArgs)
        → leads
            (codes "--cache-authorized")
            (flag a.no_follow_redirects (codes "--no-follow-redirects") ++ lists a)
          ≡ false
    not_authorized a =
        leads-flag _ (codes "--no-follow-redirects") a.no_follow_redirects _ refl
          (leads-lists _ a refl refl)

    not_all :
        (a : ProxyArgs)
        → leads (codes "--cache-all") (
            flag a.cache_authorized (codes "--cache-authorized")
            ++ (flag a.no_follow_redirects (codes "--no-follow-redirects") ++ lists a))
          ≡ false
    not_all a = leads-flag _ (codes "--cache-authorized") a.cache_authorized _ refl (
        leads-flag _ (codes "--no-follow-redirects") a.no_follow_redirects _ refl
          (leads-lists _ a refl refl))

option_injective :
    {x y : Bytes} {r s : List Bytes} (name : Bytes)
    → name ∷ x ∷ r ≡ name ∷ y ∷ s
    → (x ≡ y) × (r ≡ s)
option_injective name e = (cc, cc)

-- Two invocations of the background process whose flags are the same have the same settings, unless
-- a bypassed host is written with a comma: no setting is lost on the way to it.
pub to_run_args_injective :
    (var : Bytes → Option Bytes) (a b : ProxyArgs) (dir other : Bytes)
    → AllLack 44 a.bypass
    → AllLack 44 b.bypass
    → to_run_args var a dir ≡ to_run_args var b other
    → Agree var a b dir other
unfolding to_run_args
to_run_args_injective var a b dir other lack_a lack_b e =
    let (port, e1) = option_injective _ e in
    let (dirs, e2) = option_injective _ e1 in
    let (min_size, e3) = option_injective _ e2 in
    let (max_size, e4) = option_injective _ e3 in
    let (min_max_age, e5) = option_injective _ e4 in
    let (concurrency, e6) = option_injective _ e5 in
    let (prefixes, e7) = option_injective _ e6 in
    let (scopes, e8) = option_injective _ e7 in
    let (threshold, e9) = option_injective _ e8 in
    let (limit, rest) = option_injective _ e9 in
    let (all, authorized, redirects, rest') = switches_injective a b rest in
    let (bypasses, tunnels) = lists_injective a b lack_a lack_b rest' in
    record {
      dirs = dirs;
      ports = decimal_injective _ _ port;
      min_sizes = decimal_injective _ _ min_size;
      max_sizes = decimal_injective _ _ max_size;
      min_max_ages = decimal_injective _ _ min_max_age;
      concurrencies = decimal_injective _ _ concurrency;
      prefixes = prefixes;
      scopes = scopes;
      thresholds = decimal_injective _ _ threshold;
      limits = decimal_injective _ _ limit;
      cache_alls = all;
      authorized = authorized;
      redirects = redirects;
      bypasses = bypasses;
      tunnels = tunnels;
    }
