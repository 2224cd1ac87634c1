-- ===== src/Machine.antt =====
-- The state that the kernel's functions share, and commands over it. The globals of src/frame.c,
-- src/page.c, src/fdt.c and src/trap.c are fields, and so are the control registers that
-- include/csr.h reads and writes. A call of `printf` is recorded with its format and the values of
-- its arguments, a string by its address.
pub mod Returns
pub mod Prints
use fifth_kernel.Base.{ℕ, ◌+◌, ◌*◌, ◌/◌, ◌%◌, ◌^◌, String, List, [], ◌∷◌}
use fifth_kernel.Memory.{Memory}
use fifth_kernel.Frame.{Frames}

-- An element of `mapped_locations`.
pub record Location : Type 0 where
  pub address : ℕ
  pub size : ℕ

-- `struct device_information_t`
pub record DeviceInformation : Type 0 where
  pub ram_start : ℕ
  pub ram_size : ℕ
  pub dtb : ℕ
  pub dtb_size : ℕ
  pub mapped_locations : List Location

-- The control registers that the C code names.
pub record Csr : Type 0 where
  pub misa : ℕ
  pub mstatus : ℕ
  pub mepc : ℕ
  pub mideleg : ℕ
  pub medeleg : ℕ
  pub pmpaddr0 : ℕ
  pub pmpcfg0 : ℕ
  pub satp : ℕ
  pub scause : ℕ
  pub sepc : ℕ
  pub stvec : ℕ
  pub sscratch : ℕ
  pub sstatus : ℕ
  pub sie : ℕ

pub record Printed : Type 0 where
  pub format : String
  pub args : List ℕ

-- `console` holds the calls of `printf`, the latest first, and `flushes` counts `sfence.vma`.
pub record Machine : Type 0 where
  pub memory : Memory
  pub frames : Frames
  pub device : DeviceInformation
  pub kernel_start_addr : ℕ
  pub kernel_end_addr : ℕ
  pub ident_map_addr : ℕ
  pub counter : ℕ
  pub csr : Csr
  pub console : List Printed
  pub flushes : ℕ

-- `fault` is what C leaves undefined, such as an index out of range; `hang` is a loop that never
-- ends; `out_of_fuel` belongs to the model.
pub data Run (A : Type 0) : Type 0 where
  done : A → Machine → Run A
  fault : Run A
  hang : Run A
  out_of_fuel : Run A

abbrev pub Cmd : Type 0 → Type 0
Cmd A = Machine → Run A

abbrev pub pure : {A : Type 0} → A → Cmd A
pure a s = done a s

abbrev pub and_then : {A B : Type 0} → Run A → (A → Cmd B) → Run B
and_then (done a s) k = k a s
and_then fault k = fault
and_then hang k = hang
and_then out_of_fuel k = out_of_fuel

infixl 5 ◌>>=◌ ◌>>◌
abbrev pub ◌>>=◌ : {A B : Type 0} → Cmd A → (A → Cmd B) → Cmd B
m >>= k = λ s. and_then (m s) k

abbrev pub ◌>>◌ : {A B : Type 0} → Cmd A → Cmd B → Cmd B
m >> n = m >>= λ _. n

abbrev pub get : Cmd Machine
get s = done s s

abbrev pub put : Machine → Cmd (Unit {0})
put s _ = done tt s

abbrev pub modify : (Machine → Machine) → Cmd (Unit {0})
modify f s = done tt (f s)

-- The third-party `printf`, as the record of its call.
abbrev pub printf : String → List ℕ → Cmd (Unit {0})
printf format args s =
    done tt (record s { console = record { format = format; args = args } ∷ s.console })

-- Sums and multiples of `size_t`.
abbrev pub u64 : ℕ → ℕ
u64 n = n % 2 ^ 64
