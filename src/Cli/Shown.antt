-- ===== src/Cli/Shown.antt =====
-- Which lines the program of src/main.rs prints.
use blastdns.Prelude.{
  ℕ, take, length, leb, ◌≡◌, ◌⊎◌, inl, inr, ◌&&◌, ◌||◌, Option, none, some, List, [], map, is_empty,
  if◌then◌else◌,
}
use mathlib.Core.List.{filter_map}
use blastdns.Cache.{CacheEntry, Query}
use blastdns.Cli.{Args, Failure, config_of, load_resolvers, load_hosts}
use blastdns.Cli.Output.{
  Payload, Exit, panicked, brief, found, failed, success, not_loaded, client_not_made, results,
  main,
}
use blastdns.Client.Build.{System, BlastDnsClient, with_config}
use blastdns.Client.Ready.{IsTooLarge}
use blastdns.Dns.{Dns}
use blastdns.Error.{Result, ok, err, BlastDnsError}
use blastdns.Float.{Float, OrderLaws}
use blastdns.Limiter
use blastdns.Lru.{Lru}
use blastdns.Net.{Text}
use blastdns.Resolver.{rdata}
use blastdns.Semaphore.{Semaphore}

-- How the program ends after so many lines, if standard output takes `room` of them.
unfoldable pub ending : ℕ → ℕ → Exit
ending n room = if leb n room then success else panicked

-- What is printed of these lines when standard output takes so many, and how it ends.
abbrev pub printed : ℕ → List Text → List Text × Exit
printed room lines = (take room lines, ending (length lines) room)

module _ (f64 : Float) (dns : Dns) (data_to_string : dns.Record → Text) where
  open f64 use {F}
  open dns use {Response}

  -- The line for one host, if there is one.
  abbrev pub shown : Args F → Text → Text × Result Response → Option (Payload Response)
  shown args record_type (host, err e) =
      if args.brief || args.skip_errors then none else some (failed host e)
  shown args record_type (host, ok r) =
      if args.brief
      then (if is_empty (dns.answers r)
          then none
          else some (brief host record_type (rdata dns data_to_string r)))
      else if args.skip_empty && is_empty (dns.answers r)
      then none
      else some (found host r)

  module _ (sem : Semaphore) (lru : Lru (Query dns) (CacheEntry Response))
      (resolve_full : BlastDnsClient f64 sem dns lru → Text → Result Response)
      (unordered : List (Text × Result Response) → List (Text × Result Response))
      (to_string : Payload Response → Option Text) (room : ℕ) where
    -- What the program prints for the hosts that were read.
    abbrev pub all_shown :
        (Payload Response → Text)
        → Args F
        → Text
        → BlastDnsClient f64 sem dns lru
        → List (Option Text)
        → List Text
    all_shown text args record_type c read = map text (
        filter_map (shown args record_type) (
          results f64 sem dns lru data_to_string resolve_full unordered to_string room c
            (load_hosts read)))

    -- What the program does: it stops before it prints anything, since a file could not be loaded or
    -- no client could be made, and with a panic only if the client was too large; or it prints the
    -- lines of all hosts, as far as standard output takes them.
    abbrev pub Ran :
        OrderLaws f64
        → System
        → Args F
        → Text
        → Option Text
        → Option (List (Option Text))
        → (Payload Response → Text)
        → Type 0
    Ran laws sys args record_type resolvers hosts text =
        let out =
          main f64 sem dns lru data_to_string resolve_full unordered to_string room sys args
            record_type resolvers hosts in
        ((f : Failure) × (out ≡ ([], not_loaded f))
          × ((load_resolvers resolvers ≡ inl f) ⊎ (hosts ≡ none)))
        ⊎ ((rs : List Text) × (load_resolvers resolvers ≡ inr rs)
            × (read : List (Option Text)) × (hosts ≡ some read)
            × (((out ≡ ([], panicked)) × IsTooLarge f64 laws sem dns lru sys (config_of f64 args))
                ⊎ (((e : BlastDnsError) × (out ≡ ([], client_not_made e))
                      × (with_config f64 sem dns lru sys rs (config_of f64 args) ≡ some (err e)))
                    ⊎ ((c : BlastDnsClient f64 sem dns lru) × (with_config f64 sem dns lru sys rs
                            (config_of f64 args)
                          ≡ some (ok c))
                        × (out ≡ printed room (all_shown text args record_type c read))))))
