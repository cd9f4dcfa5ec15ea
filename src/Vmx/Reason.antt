-- ===== src/Vmx/Reason.antt =====
-- Why a guest was left: `reason` of src/vmx.rs.
use cuddles.Base.{ℕ}

abbrev pub exception_nmi : ℕ
exception_nmi = 0

abbrev pub external_interrupt : ℕ
external_interrupt = 1

abbrev pub triple_fault : ℕ
triple_fault = 2

abbrev pub interrupt_window : ℕ
interrupt_window = 7

abbrev pub cpuid : ℕ
cpuid = 10

abbrev pub hlt : ℕ
hlt = 12

abbrev pub invd : ℕ
invd = 13

abbrev pub invlpg : ℕ
invlpg = 14

abbrev pub rdtsc : ℕ
rdtsc = 16

abbrev pub vmcall : ℕ
vmcall = 18

abbrev pub vmclear : ℕ
vmclear = 19

abbrev pub vmlaunch : ℕ
vmlaunch = 20

abbrev pub vmptrld : ℕ
vmptrld = 21

abbrev pub vmptrst : ℕ
vmptrst = 22

abbrev pub vmread : ℕ
vmread = 23

abbrev pub vmresume : ℕ
vmresume = 24

abbrev pub vmwrite : ℕ
vmwrite = 25

abbrev pub vmxoff : ℕ
vmxoff = 26

abbrev pub vmxon : ℕ
vmxon = 27

abbrev pub cr_access : ℕ
cr_access = 28

abbrev pub dr_access : ℕ
dr_access = 29

abbrev pub io_instruction : ℕ
io_instruction = 30

abbrev pub rdmsr : ℕ
rdmsr = 31

abbrev pub wrmsr : ℕ
wrmsr = 32

abbrev pub mwait : ℕ
mwait = 36

abbrev pub monitor : ℕ
monitor = 39

abbrev pub pause : ℕ
pause = 40

abbrev pub invept : ℕ
invept = 50

abbrev pub rdtscp : ℕ
rdtscp = 51

abbrev pub invvpid : ℕ
invvpid = 53

abbrev pub wbinvd : ℕ
wbinvd = 54

abbrev pub xsetbv : ℕ
xsetbv = 55
