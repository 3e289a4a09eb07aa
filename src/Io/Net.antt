-- ===== src/Io/Net.antt =====
-- The async methods of yaay-mio/src/net, over the blocking calls of std and mio that they repeat. A
-- buffer that is filled is the list of its bytes in the result.
use yaay_rs.Base.{ℕ, List, Option}
use yaay_rs.Io.{IoResult, Outcome, io_poll, io_poll_map}

module _ {S : Type 0} (wait : S → S) (fuel : ℕ) where
  -- `TcpStreamReader::read`, given the call of `std::io::Read::read`
  unfoldable pub read : (ℕ → S → IoResult (List ℕ) × S) → ℕ → S → Option (Outcome S (List ℕ))
  read sys_read len s = io_poll (sys_read len) wait fuel s

  -- `TcpStreamReader::read_exact`
  unfoldable pub read_exact : (ℕ → S → IoResult (List ℕ) × S) → ℕ → S → Option (Outcome S (List ℕ))
  read_exact sys_read_exact len s = io_poll (sys_read_exact len) wait fuel s

  -- `TcpStreamWriter::write`
  unfoldable pub write : (List ℕ → S → IoResult ℕ × S) → List ℕ → S → Option (Outcome S ℕ)
  write sys_write buf s = io_poll (sys_write buf) wait fuel s

  -- `TcpStreamWriter::write_all`
  unfoldable pub write_all :
      (List ℕ → S → IoResult (Unit {0}) × S) → List ℕ → S → Option (Outcome S (Unit {0}))
  write_all sys_write_all buf s = io_poll (sys_write_all buf) wait fuel s

  -- `TcpListenerAcceptor::accept`, given `accept` of mio and `MIOHandle::new_rw`
  unfoldable pub accept :
      {Stream Addr Handle : Type 0}
      → (S → IoResult (Stream × Addr) × S)
      → (Stream → S → (Handle × Handle) × S)
      → S
      → Option (Outcome S (Handle × Handle × Addr))
  accept sys_accept new_rw s =
      io_poll_map sys_accept wait
        (λ res s.
          let ((read_handle, write_handle), s') = new_rw res.0 s in
          ((read_handle, write_handle, res.1), s'))
        fuel s
