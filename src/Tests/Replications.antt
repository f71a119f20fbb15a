-- ===== src/Tests/Replications.antt =====
-- Source/CBL_ReplicatorSettings.m and Source/API/CBLReplication.m at concrete inputs.
use couchbase_lite_ios.Base.{
  ℕ, ◌≡◌, ◌≢◌, ◌↔◌, ap, ◌∙◌, refl, true, false, none, some, List, [], ◌∷◌, ◌++◌, All, if◌then◌else◌,
  ◌==◌, arith, ltb, length,
}
use couchbase_lite_ios.Base.Int.{pos}
use couchbase_lite_ios.Base.Bytes.{Bytes, codes, equal, memchr}
use couchbase_lite_ios.RevId.{generation, parse_digits}
use couchbase_lite_ios.Replication.Settings.{
  SettingsTypes, ReplicatorSettings, Transformable, changed, init_with_remote, lookup, keep_given,
  checkpoint_fields, is_equal, accept, set_all_revpos, transform_revision, network,
  can_use_cell_network, is_host_reachable,
}
use couchbase_lite_ios.Replication.Equality.{IsSame, IsCollisionFree, is_equal-IsSame}
use couchbase_lite_ios.Replication.Transform.{
  IsBodyOf, any_network, transform_revision-IsBodyOf, is_host_reachable-can_use_cell_network,
}
use couchbase_lite_ios.Replication.Front.{
  FrontTypes, Replication, Update, active, init_with_database, channels, set_channels,
  by_channel_filter,
}
use couchbase_lite_ios.Replication.Machine.{
  System, starts_replicator, initial, begins, steps, calls_start, restart, run_main, start,
}
use couchbase_lite_ios.Replication.Reached.{IsSound, Reached-IsSound}
use couchbase_lite_ios.Replication.Restart.{
  restart-starts, HasNoComma, IsSeparator, channels-set_channels,
}

abbrev front_types : FrontTypes
front_types = record {
  Url = Bytes;
  Dictionary = Bytes;
  Error = ℕ;
  Authenticator = Unit {0};
  same_error = λ a b. a == b;
  same_dictionary = equal;
  user = λ url. none;
  username_of = λ a. none;
  components_separated = λ text. text ∷ [];
  components_joined = λ names. elim names [ [] ↦ [] | c ∷ cs ↦ c ];
}

abbrev replication : Replication front_types
unfolding init_with_database
replication = init_with_database front_types (codes "http://a/b") true

abbrev progress : Update front_types
progress = record {
  status = active;
  error = none;
  processed = 1;
  total = 2;
  last_seq_pushed = pos 0;
}

abbrev quiet : System front_types ℕ
quiet = record {
  front = record replication { started = true };
  database_open = true;
  replicator = some progress;
  pending_actions = [];
  server_queue = [];
  main_queue = [];
  performed = 7 ∷ [];
  asked = 7 ∷ [];
}

Reached-IsSound_example :
    IsSound front_types ℕ (start front_types ℕ (initial front_types ℕ (codes "http://a/b") true))
Reached-IsSound_example =
    Reached-IsSound front_types ℕ (steps (begins (codes "http://a/b") true) calls_start)

restart-starts_example :
    ((run_main front_types ℕ
        (run_main front_types ℕ (restart front_types ℕ true progress quiet))).front.started
      ≡ true)
    × ((run_main front_types ℕ
          (run_main front_types ℕ (restart front_types ℕ true progress quiet))).server_queue
        ≡ starts_replicator ∷ [])
restart-starts_example = restart-starts front_types ℕ quiet progress (record {
  front = replication;
  last = progress;
  waiting = [];
  done = 7 ∷ [];
  told = 7 ∷ [];
  state_is = refl;
})

abbrev comma : ℕ
comma = b','

join : List Bytes → Bytes
join [] = []
join (c ∷ []) = c
join (c ∷ d ∷ cs) = c ++ (comma ∷ join (d ∷ cs))

cons_first : ℕ → List Bytes → List Bytes
cons_first x [] = (x ∷ []) ∷ []
cons_first x (c ∷ cs) = (x ∷ c) ∷ cs

split : Bytes → List Bytes
unfolding cons_first
split [] = [] ∷ []
split (x ∷ xs) = let rest = split xs in if x == comma then [] ∷ rest else cons_first x rest

split-name : (c : Bytes) → All (λ x. x ≢ comma) c → split c ≡ c ∷ []
unfolding split cons_first
split-name [] h = refl
split-name (x ∷ c) h = rw (split-name c h.1) (ground (arith, h.0))

split-append :
    (c rest : Bytes) → All (λ x. x ≢ comma) c → split (c ++ (comma ∷ rest)) ≡ c ∷ split rest
unfolding split cons_first
split-append [] rest h = refl
split-append (x ∷ c) rest h = rw (split-append c rest h.1) (ground (arith, h.0))

abbrev comma_types : FrontTypes
comma_types = record front_types { components_separated = split; components_joined = join }

comma_types-IsSeparator : IsSeparator comma_types
unfolding join
comma_types-IsSeparator = record { separates = separates; not_empty = not_empty; nothing = refl }
  where
    separates :
        (c : Bytes) (cs : List Bytes)
        → All (HasNoComma comma_types) (c ∷ cs)
        → split (join (c ∷ cs)) ≡ c ∷ cs
    separates c [] h = split-name c h.0
    separates c (d ∷ cs) h = split-append c (join (d ∷ cs)) h.0 ∙ ap (◌∷◌ c) (separates d cs h.1)

    not_empty : (c : Bytes) (cs : List Bytes) → c ∷ cs ≢ [] ∷ [] → join (c ∷ cs) ≢ []
    not_empty [] [] n e = n refl
    not_empty (x ∷ c) [] n e = cc e
    not_empty [] (d ∷ cs) n e = cc e
    not_empty (x ∷ c) (d ∷ cs) n e = cc e

abbrev two_channels : Replication comma_types
unfolding init_with_database set_channels join
two_channels = record (init_with_database comma_types (codes "http://a/b") true) {
  options = record (init_with_database comma_types (codes "http://a/b") true).options {
    filter = some by_channel_filter;
    filter_params = some ((codes "channels", codes "a,b") ∷ []);
  };
}

channels_run : channels comma_types two_channels ≡ some (codes "a" ∷ codes "b" ∷ [])
unfolding init_with_database set_channels join
channels_run =
    channels-set_channels comma_types comma_types-IsSeparator (codes "a") (codes "b" ∷ [])
      (init_with_database comma_types (codes "http://a/b") true) two_channels (ground arith)
      (λ e. cc e) refl

abbrev settings_types : SettingsTypes
settings_types = record {
  Number = ℕ;
  Dictionary = Bytes;
  Url = Bytes;
  FilterBlock = List Bytes;
  Authorizer = Unit {0};
  absolute_string = λ url. url;
  lowercase_string = λ s. s;
  canonical_encoding = λ d. length d ∷ [];
  sha1 = λ text. text;
  double_value = λ v. 0;
  bool_value = λ v. true;
  thousandth = λ n. n;
  of_ℕ = λ n. n;
  less = ltb;
  id_filter = λ ids. ids;
}

abbrev one_shot : ReplicatorSettings settings_types
unfolding init_with_remote
one_shot = init_with_remote settings_types (codes "http://a/b") true

abbrev continuous : ReplicatorSettings settings_types
continuous = record one_shot { continuous = true }

-- The two checkpoints have 4 and 3 entries.
two-IsCollisionFree : IsCollisionFree settings_types one_shot continuous
unfolding init_with_remote keep_given checkpoint_fields lookup
two-IsCollisionFree = record {
  text = λ h. absurd (ground arith);
  digest = λ h. h;
  are_bytes = ground arith;
  are_bytes' = ground arith;
}

is_equal-IsSame_example :
    (is_equal settings_types one_shot continuous ≡ true) ↔ IsSame settings_types one_shot continuous
is_equal-IsSame_example = is_equal-IsSame settings_types one_shot continuous two-IsCollisionFree

abbrev body : Bytes → Transformable
body text = record {
  doc_id = codes "doc";
  rev_id = codes "2-aa";
  revisions = none;
  attachments =
      some (record { name = codes "a"; revpos = none; has_data = true; others = [] } ∷ []);
  others = text;
}

abbrev encrypted : Transformable
encrypted = record (body (codes "xyz")) {
  attachments =
      some (record { name = codes "a"; revpos = some 2; has_data = true; others = [] } ∷ []);
}

transform_revision-IsBodyOf_example : IsBodyOf (body (codes "abc")) encrypted
unfolding init_with_remote transform_revision accept set_all_revpos equal generation parse_digits
    memchr
transform_revision-IsBodyOf_example =
    transform_revision-IsBodyOf settings_types
      (record one_shot { transformation = some (λ rev. changed (body (codes "xyz"))) })
      (body (codes "abc")) encrypted refl

network_run :
    is_host_reachable settings_types
      (record { reachable = true; reachable_by_wifi = false })
      one_shot
    ≡ can_use_cell_network settings_types one_shot
unfolding init_with_remote network lookup
network_run = is_host_reachable-can_use_cell_network settings_types one_shot true any_network
