-- ===== src/Tests/Jobs.antt =====
-- The BullMQ wrapper on concrete inputs, with a store in memory.
use nestjs_stay_api.Common.{
  ℕ, ◌≡◌, refl, inl, false, Option, none, some, String, ◌==◌, arith, if◌then◌else◌, eq_refl,
  or_else,
}
use nestjs_stay_api.Bull.{
  Job, Answer, answered, failed, Queue, World, returned, thrown, queue_not_initialized, type_error,
  on_module_init, add_job, get_job, remove_job, await_call,
}
use nestjs_stay_api.Bull.Jobs.{jobs-remove_job}

-- For each id a name and a number.
abbrev Store : Type 0
Store = String → Option (String × ℕ)

abbrev job_of : String → Option (String × ℕ) → Option (Job ℕ)
job_of i none = none
job_of i (some (n, d)) = some (record { id = i; name = n; job_data = d })

abbrev id_of : Answer (Job ℕ) → String
id_of (answered j) = j.id
id_of failed = ""

job_id : (i : String) (o : Option (String × ℕ)) (j : Job ℕ) → job_of i o ≡ some j → j.id ≡ i
job_id i none j e = absurd (ground arith)
job_id i (some (n, d)) j e = ground (arith, e)

-- A job's id is its name; one that is there stays.
abbrev added : String → ℕ → Store → Store
added n d s i = if n == i then some (or_else (s i) (n, d)) else s i

abbrev removed : String → Store → Store
removed n s i = if n == i then none else s i

removed_here : (j : Job ℕ) (s : Store) → job_of j.id (removed j.id s j.id) ≡ none
removed_here j s = rw (eq_refl j.id) refl

removed_elsewhere :
    (j : Job ℕ) (s : Store) (i : String)
    → (j.id == i) ≡ false
    → job_of i (removed j.id s i) ≡ job_of i (s i)
removed_elsewhere j s i o = rw o refl

abbrev in_memory : Queue ℕ (Unit {0})
in_memory = record {
  Store = Store;
  jobs = λ s i. job_of i (s i);
  is_below = λ s i j. false;
  add = λ n d o s. (added n d s, answered (record { id = n; name = n; job_data = d }));
  add_bulk = λ inputs s. (s, failed);
  find = λ i s. answered (job_of i (s i));
  remove = λ j s. (removed j.id s, answered tt);
  find_lem = λ i s. inl refl;
  id-jobs = λ i s j e. job_id i (s i) j e;
  jobs-remove = λ j s e. removed_here j s;
  jobs-remove_other = λ j s i h apart. removed_elsewhere j s i h;
}

abbrev fresh : World Store
fresh = record {
  util = record {
    queue = none;
    queue_name = "mail";
    bull_mq_config = record {
      redis = record { host = "localhost"; port = 6379; password = none; db = none };
      default_job_options = none;
    };
  };
  closed = false;
  failures = 0;
  store = λ i. if i == "welcome" then some ("welcome", 1) else none;
}

jobs-remove_job_example :
    let w = on_module_init fresh in
    ((remove_job in_memory "welcome" w).1 ≡ returned tt
      → in_memory.jobs (remove_job in_memory "welcome" w).0.store "welcome" ≡ none)
    × ((k : String)
        → ("welcome" == k) ≡ false
        → in_memory.is_below w.store "welcome" k ≡ false
        → in_memory.jobs (remove_job in_memory "welcome" w).0.store k ≡ in_memory.jobs w.store k)
unfolding on_module_init
jobs-remove_job_example = jobs-remove_job in_memory (on_module_init fresh) "welcome" refl

removed_welcome : (remove_job in_memory "welcome" (on_module_init fresh)).1 ≡ returned tt
unfolding remove_job get_job await_call on_module_init
removed_welcome = refl

-- Before `onModuleInit`, `addJob` throws its own error, and `getJob` a TypeError.
no_queue :
    ((add_job in_memory "news" 2 none fresh).1 ≡ thrown queue_not_initialized)
    × (get_job in_memory "welcome" fresh ≡ thrown type_error)
unfolding add_job get_job
no_queue = (refl, refl)
