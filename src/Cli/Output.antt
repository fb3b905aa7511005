-- ===== src/Cli/Output.antt =====
-- `main` of src/main.rs, from the loaded files to the lines it prints.
use blastdns.Prelude.{
  ℕ, zero, suc, ◌⊎◌, inl, inr, Option, none, some, List, [], ◌∷◌, map, if◌then◌else◌,
}
use blastdns.Cache.{CacheEntry, Query}
use blastdns.Cli.{Args, Failure, unreadable, config_of, load_resolvers, load_hosts}
use blastdns.Client.Build.{System, BlastDnsClient, with_config}
use blastdns.Dns.{Dns}
use blastdns.Error.{Result, ok, err, BlastDnsError}
use blastdns.Float.{Float}
use blastdns.Lru.{Lru}
use blastdns.Net.{Text}
use blastdns.Resolver.{resolve_batch, resolve_batch_full}
use blastdns.Semaphore.{Semaphore}

-- The JSON of a line, by its fields.
pub data Payload (Response : Type 0) : Type 0 where
  brief : (host record_type : Text) → (answers : List Text) → Payload Response
  found : (host : Text) → (response : Response) → Payload Response
  failed : (host : Text) → (error : BlastDnsError) → Payload Response

-- How the program ends.
pub data Exit : Type 0 where
  success : Exit
  not_loaded : Failure → Exit
  client_not_made : BlastDnsError → Exit
  not_serialized : Exit
  panicked : Exit

-- `println!`, which panics when standard output takes no more: the number is that of the lines it
-- still takes.
abbrev pub print_line : Option Text → ℕ → (ℕ → List Text × Exit) → List Text × Exit
print_line none room rest = ([], not_serialized)
print_line (some line) zero rest = ([], panicked)
print_line (some line) (suc room) rest = let (lines, exit) = rest room in (line ∷ lines, exit)

-- Each payload is printed as it comes; the first that cannot be serialized ends the program.
unfoldable pub print_all : {A : Type 0} → (A → Option Text) → List A → ℕ → List Text × Exit
print_all to_string [] room = ([], success)
print_all to_string (p ∷ ps) room =
    print_line (to_string p) room (λ left. print_all to_string ps left)

module _ {Response : Type 0} where
  abbrev pub brief_of : Text × Text × List Text → Payload Response
  brief_of (host, record_type, answers) = brief host record_type answers

  abbrev pub full_of : Text × Result Response → Payload Response
  full_of (host, ok response) = found host response
  full_of (host, err e) = failed host e

-- `resolve_full` is what the client's method returns for a host, `unordered` the order in which
-- results come, `to_string` the serializer, and `room` the number of lines that standard output
-- takes.
module _ (f64 : Float) (sem : Semaphore) (dns : Dns)
    (lru : Lru (Query dns) (CacheEntry dns.Response)) (data_to_string : dns.Record → Text)
    (resolve_full : BlastDnsClient f64 sem dns lru → Text → Result dns.Response)
    (unordered : List (Text × Result dns.Response) → List (Text × Result dns.Response))
    (to_string : Payload dns.Response → Option Text) (room : ℕ) where
  open f64 use {F}
  open dns use {Response}

  -- The results of all hosts, as they come.
  abbrev pub results : BlastDnsClient f64 sem dns lru → List Text → List (Text × Result Response)
  results c hosts = unordered (map (λ host. (host, resolve_full c host)) hosts)

  -- The payloads of the `while let` loop, with or without `--brief`.
  unfoldable pub payloads : Args F → Text → List (Text × Result Response) → List (Payload Response)
  unfolding resolve_batch resolve_batch_full
  payloads args record_type done =
      if args.brief
      then map brief_of (resolve_batch dns data_to_string record_type done)
      else map full_of (resolve_batch_full dns data_to_string args.skip_empty args.skip_errors done)

  abbrev pub with_client :
      Args F
      → Text
      → List Text
      → Option (Result (BlastDnsClient f64 sem dns lru))
      → List Text × Exit
  with_client args record_type hosts none = ([], panicked)
  with_client args record_type hosts (some (err e)) = ([], client_not_made e)
  with_client args record_type hosts (some (ok c)) =
      print_all to_string (payloads args record_type (results c hosts)) room

  abbrev pub with_hosts :
      System → Args F → Text → List Text → Option (List (Option Text)) → List Text × Exit
  with_hosts sys args record_type resolvers none = ([], not_loaded unreadable)
  with_hosts sys args record_type resolvers (some read) =
      with_client args record_type (load_hosts read)
        (with_config f64 sem dns lru sys resolvers (config_of f64 args))

  abbrev pub with_resolvers :
      System → Args F → Text → Option (List (Option Text)) → Failure ⊎ List Text → List Text × Exit
  with_resolvers sys args record_type hosts (inl f) = ([], not_loaded f)
  with_resolvers sys args record_type hosts (inr resolvers) =
      with_hosts sys args record_type resolvers hosts

  -- The lines that are printed, and how the program ends. The files are given by
  -- what they hold, if they can be opened, and the record type by its name.
  unfoldable pub main :
      System → Args F → Text → Option Text → Option (List (Option Text)) → List Text × Exit
  unfolding load_resolvers load_hosts with_config config_of payloads print_all
  main sys args record_type resolvers hosts =
      with_resolvers sys args record_type hosts (load_resolvers resolvers)
