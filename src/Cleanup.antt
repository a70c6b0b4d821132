-- ===== src/Cleanup.antt =====
-- free_process of src/process_data.c and free_heap of src/min_heap.c: what the program gives back to
-- malloc and to the system. free and close are those of the C library: free faults on an address that
-- is not allocated, close of a descriptor that is not open returns -1, which nothing reads.
pub mod Laws
pub mod Queues
mod Tests
use process_management_syste.Base.{
  Ptr, ℕ, Option, none, some, List, [], ◌∷◌, ◌>>=◌, ◌==◌, if◌then◌else◌,
}
use process_management_syste.ProcessData.{Process}

-- The addresses that are allocated, and the descriptors that are open.
pub record Resources : Type 0 where
  pub allocated : List Ptr
  pub opened : List ℕ

unfoldable pub free_address : Ptr → List Ptr → Option (List Ptr)
free_address p [] = none
free_address p (q ∷ l) =
    let later : Option (List Ptr) = do l' ← free_address p l; some (q ∷ l')
    in if q == p then some l else later

unfoldable pub close : ℕ → List ℕ → List ℕ
close fd [] = []
close fd (f ∷ l) = let rest = close fd l in if f == fd then l else f ∷ rest

-- A process and its name, with their addresses.
pub record Held : Type 0 where
  pub address : Ptr
  pub name_address : Ptr
  pub process : Process

-- The READ end of fd_in and the WRITE end of fd_out are the ends that start_real_process keeps open.
unfoldable pub free_process : Held → Resources → Option Resources
unfolding free_address close
free_process p r = do
  a ← free_address p.name_address r.allocated
  let fds = close p.process.fd_out.1 (close p.process.fd_in.0 r.opened)
  b ← free_address p.address a
  some (record { allocated = b; opened = fds })

-- The addresses of a min heap and of its array.
pub record HeldHeap : Type 0 where
  pub address : Ptr
  pub data_address : Ptr

unfoldable pub free_heap : HeldHeap → Resources → Option Resources
unfolding free_address
free_heap heap r = do
  a ← free_address heap.data_address r.allocated
  b ← free_address heap.address a
  some (record r { allocated = b })
