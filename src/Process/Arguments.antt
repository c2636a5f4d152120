-- ===== src/Process/Arguments.antt =====
-- src/task/process.c: the arguments of a program.
use mathlib.Core.Option
use marrow_os.Base.{
  ℕ, suc, ◌+◌, ◌*◌, ◌%◌, ◌^◌, ◌==◌, if◌then◌else◌, Option, some, List, [], ◌∷◌, replicate,
}
use marrow_os.CString.{strncpy}
use marrow_os.Elf.Load.{store_bytes}
use marrow_os.Kheap.{Kernel}
use marrow_os.Paging.Words.{write32}
use marrow_os.Process.{Process, process_malloc}

-- `sizeof(current->argument)`
abbrev pub argument_size : ℕ
argument_size = 512

-- 0, -EIO and -ENOMEM.
pub data Injected : Type 0 where
  injected no_arguments no_memory : Injected

-- `struct process_arguments`
pub record ProcessArguments : Type 0 where
  pub argc : ℕ
  pub argv : ℕ

-- The list of arguments in the order of its `next` links.
pub process_count_command_arguments : List (List ℕ) → ℕ
process_count_command_arguments [] = 0
process_count_command_arguments (argument ∷ next) = suc (process_count_command_arguments next)

-- The copy of an argument into its new memory, which is cleared, and its entry in `argv`.
pub write_argument : ℕ → ℕ → ℕ → List ℕ → Kernel → Option Kernel
write_argument argv i argument_str argument k =
    Option.map
      (λ bytes. record k {
        mem = write32 (store_bytes bytes argument_str k.mem) ((argv + i * 4) % 2 ^ 32) argument_str;
      })
      (strncpy (replicate argument_size 0) argument argument_size)

-- The loop of `process_inject_arguments` at index `i`.
pub inject_from : ℕ → ℕ → List (List ℕ) → Process → Kernel → Option (Injected × Process × Kernel)
inject_from argv i [] process k = some (injected, process, k)
inject_from argv i (argument ∷ next) process k =
    Option.bind (process_malloc argument_size process k) λ r.
      let (argument_str, process', k') = r in
      if argument_str == 0
      then some (no_memory, process', k')
      else Option.bind (write_argument argv i argument_str argument k')
          (λ k''. inject_from argv (i + 1) next process' k'')

-- The arguments are set where all went well.
pub finish_inject :
    ProcessArguments
    → ProcessArguments
    → Injected × Process × Kernel
    → Injected × ProcessArguments × Process × Kernel
finish_inject before made (injected, process, k) = (injected, made, process, k)
finish_inject before made (no_arguments, process, k) = (no_arguments, before, process, k)
finish_inject before made (no_memory, process, k) = (no_memory, before, process, k)

pub process_inject_arguments :
    List (List ℕ)
    → ProcessArguments
    → Process
    → Kernel
    → Option (Injected × ProcessArguments × Process × Kernel)
process_inject_arguments root_argument arguments process k =
    let argc = process_count_command_arguments root_argument in
    if argc == 0
    then some (no_arguments, arguments, process, k)
    else Option.bind (process_malloc (4 * argc) process k) λ r.
      let (argv, process', k') = r in
      if argv == 0
      then some (no_memory, arguments, process', k')
      else Option.map (finish_inject arguments (record { argc = argc; argv = argv }))
          (inject_from argv 0 root_argument process' k')

pub process_get_arguments : ProcessArguments → ℕ × ℕ
process_get_arguments arguments = (arguments.argc, arguments.argv)
