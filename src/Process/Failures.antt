-- ===== src/Process/Failures.antt =====
-- internal/process/failureclass.go: why a backend failed, from its exit and its output. Texts are
-- lists of bytes; `strings.ToLower` folds ASCII.
use llama_skein.Base.{
  ℕ, ◌+◌, Bool, true, false, ◌||◌, ◌&&◌, String, Option, none, some, List, [], ◌∷◌, ◌==◌, leb,
  if◌then◌else◌, map,
}
use llama_skein.Base.Text.{codes, has_prefix, split}

pub data FailureClass : Type 0 where
  gpu_oom host_oom unsupported_arch missing_shard invalid_flag backend_error crash_other :
      FailureClass

-- `IsMemory`
unfoldable pub is_memory : FailureClass → Bool
is_memory gpu_oom = true
is_memory host_oom = true
is_memory _ = false

-- `ExitInfo`, with the exit status as its code, or none for -1, where the process was signalled.
pub record ExitInfo : Type 0 where
  pub code : Option ℕ
  pub err : List ℕ

abbrev pub lower_byte : ℕ → ℕ
lower_byte c = if leb b'A' c && leb c b'Z' then c + 32 else c

-- `strings.ToLower`
abbrev pub lower : List ℕ → List ℕ
lower = map lower_byte

-- `strings.Contains`
unfoldable pub contains_text : List ℕ → List ℕ → Bool
contains_text [] sub = has_prefix [] sub
contains_text (c ∷ s) sub = let rest = contains_text s sub in has_prefix (c ∷ s) sub || rest

-- `containsAny`
unfoldable pub contains_any : List ℕ → List String → Bool
unfolding contains_text
contains_any s [] = false
contains_any s (n ∷ needles) = contains_text s (codes n) || contains_any s needles

abbrev pub device_words : List String
device_words =
    "cuda" ∷ "hip" ∷ "rocm" ∷ "vram" ∷ "metal" ∷ "vulkan" ∷ "sycl" ∷ "device memory" ∷ "gpu" ∷ []

abbrev pub oom_patterns : List String
oom_patterns =
    "out of memory" ∷ "outofmemory" ∷ "failed to allocate" ∷ "cannot allocate memory"
    ∷ "std::bad_alloc" ∷ "buffer allocation failed" ∷ "insufficient memory" ∷ "oom" ∷ []

abbrev pub class_rules : List (FailureClass × List String)
class_rules =
    (
      unsupported_arch,
      "unknown model architecture" ∷ "unsupported model architecture" ∷ "unknown architecture"
          ∷ "unsupported architecture" ∷ "unknown arch" ∷ [],
    )
    ∷ (
      missing_shard,
      "no such file or directory" ∷ "failed to open gguf file" ∷ "failed to load model from file"
          ∷ "missing split" ∷ "invalid split file" ∷ "unable to load model" ∷ [],
    )
    ∷ (
      invalid_flag,
      "invalid argument" ∷ "unrecognized argument" ∷ "unknown argument"
          ∷ "error while handling argument" ∷ "invalid parameter" ∷ [],
    )
    ∷ (
      backend_error,
      "no usable gpu" ∷ "no compatible gpu" ∷ "failed to initialize backend" ∷ "hiperrornodevice"
          ∷ "no cuda-capable device" ∷ "failed to initialize hip" ∷ "backend is in error state"
          ∷ [],
    )
    ∷ []

-- The last loop of `ClassifyFailure`.
unfoldable pub rule_class : List ℕ → List (FailureClass × List String) → FailureClass
unfolding contains_any
rule_class text [] = crash_other
rule_class text ((class, patterns) ∷ rules) =
    if contains_any text patterns then class else rule_class text rules

-- The loop over the lines, and the rules after it.
unfoldable pub lines_class : List ℕ → List (List ℕ) → FailureClass
unfolding contains_any rule_class
lines_class text [] = rule_class text class_rules
lines_class text (line ∷ lines) =
    if contains_any line oom_patterns
    then (if contains_any line device_words then gpu_oom else host_oom)
    else lines_class text lines

abbrev pub is_137 : Option ℕ → Bool
is_137 none = false
is_137 (some code) = code == 137

-- The test of the exit: status 137, or a text with `signal: killed`.
abbrev pub was_killed : ExitInfo → Bool
was_killed exit = is_137 exit.code || contains_text (lower exit.err) (codes "signal: killed")

abbrev newline : ℕ
newline = 10

-- What follows the test of the exit, on the output in lower case.
unfoldable pub output_class : List ℕ → FailureClass
unfolding lines_class
output_class [] = crash_other
output_class (c ∷ text) = lines_class (c ∷ text) (split newline (c ∷ text))

-- `ClassifyFailure`
unfoldable pub classify_failure : ExitInfo → List ℕ → FailureClass
unfolding output_class
classify_failure exit output = if was_killed exit then host_oom else output_class (lower output)
