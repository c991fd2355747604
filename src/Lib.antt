-- ===== src/Lib.antt =====
-- Verification of the lending core of the backend: the maker-checker workflow engine, the loan
-- calculations, the services that raise, verify and disburse loans, apply repayments, charge penalties and
-- settle loans early, the double-entry ledger, the funds of branches, the leave of staff and their
-- capabilities.
--
-- The parts and how they interact. A staff member initiates a workflow request, and others act on its steps
-- until it is approved, rejected or returned. The engine emits an event, which the domain services take: an
-- approved loan may be verified and is then disbursed from the funds of its branch, which the fundings that
-- its manager verifies have raised, an approved repayment is applied to the balance of a member's loan
-- account, an approved early liquidation lets a repayment of its total be recorded, an approved leave
-- application takes its days from the balance. The daily sweep charges penalties to overdue accounts and
-- delay charges to approved liquidations. What closes or reopens an account resyncs the status of its loan.
--
--   Common      Boolean tests, lists, results of calls that may throw, a collection of documents by id
--               (find, modify, a guarded update, erase), integers over the native
--               numbers; Entries states what holds of each document and its id.
--   Workflow    src/platform/workflow-engine/workflow-engine.service.ts. Engine holds the state (chains,
--               requests, audit, events) and `act`; Chains registerChainConfig, replaceChainConfig and
--               initiate; Maker updatePendingPayload, resubmit, cancel, deleteRequest and linkEntity;
--               Queries the reads. Authority, Approval, Races and Invariant (Steps, Rounds, Sound, Keeps,
--               Reach) hold the proofs.
--   Calc        src/modules/loan-products/calculations: Rounding, Interest (flat), Reducing, Charges
--               (fees and penalties).
--   Loans       src/modules/loans up to the disbursement. State the documents; Applications
--               raiseApplication, Pending updatePendingApplication and deleteLoan, Decisions the workflow
--               events and rejectLoan, Completion syncCompletionStatus, of loans.service.ts; Schedule the
--               stored schedule, Verification initiateMemberVerification and resolveEscalation,
--               Disbursement checkAndDisburse, disburse and confirmChequeHandover, of
--               loan-verification.service.ts; Consent loan-consent.service.ts; Fees
--               fee-payments.service.ts. Their child modules, Moves and Reach hold the proofs.
--   Lending     State the documents; Balance applyToBalance and reverseBalance, and Repayments the rest
--               of src/modules/repayments/repayments.service.ts; Completion syncCompletionStatus of
--               src/modules/loans/loans.service.ts and checkCompletion; Liquidation
--               src/modules/repayments/early-liquidation.service.ts; Penalties and DelayCharges
--               src/modules/repayments/penalty-sweep.service.ts. Settlement, Stale, Recording, Disputes,
--               Resync, Sound, Reach and Sweep hold the proofs.
--   Accounting  src/modules/accounting: Journal journal-balance.util.ts and ledger-posting.service.ts
--               (one `post` for the four kinds of posting), Reports the sums and the trial balance of
--               accounting.service.ts. Posting and Trial hold the proofs.
--   Branches    src/modules/branches: Funds branch-fund-balance.service.ts, Funding
--               branch-funding.service.ts. Taken and Funding.Verified hold the proofs.
--   Leave       src/modules/hr: Balance leave-balance.service.ts, Applications
--               leave-application.service.ts. Usage holds the proofs.
--   Rbac        src/platform/rbac: Service is rbac.service.ts, which gives the capabilities that a call of
--               the workflow takes as numbers. Edits holds the proofs.
--   The Tests modules run each part on small inputs.
--
-- How the state corresponds. A collection is a list of documents under their ids. An operation takes the
-- collections and returns its result, or the class of the exception, with the collections after it.
-- `findOneAndUpdate` with a filter is one step that tests and writes; a transaction is one step. A call of
-- `act` is also split into its read and its write, so that other calls may stand in between, and `disburse`
-- takes the loan and the accounts that were read before it. Identifiers, capabilities, references and notes
-- are only compared or stored, so they are numbers; a payload is its JSON text; amounts are kobo. A note
-- that is blank or missing is `none`. In Lending, Workflow and Accounting dates are milliseconds. In
-- Loans.Schedule, Loans.Disbursement and Leave they are whole days, as addDays and the counting of leave
-- days use them. Loans and Lending each have the fields of the loan and account documents that their
-- services read and write: before a disbursement an account has no balance, and after it the balance is
-- what Lending starts from. The approval action of a loan product is 10 with the id of the product, in
-- place of a prefix and the id.
--
-- Parameters. What Loans reads of groups, products, fee definitions, the hash of a consent code, the
-- answers of the identity checks, the directory of branches, managers and bank accounts, and the year of a
-- date are arguments of the operations, and so is the catalogue of products in Lending.
--
-- Bounds. All loops are structural recursion on a list or on the number of installments, so nothing runs
-- out of fuel. Amounts are natural numbers without a bound: the source's numbers are exact up to 2^53, and
-- a quotient of integers below it rounds as the exact quotient does. The floats of the reducing schedule
-- are a parameter (Calc.Reducing.Floats), and its balances are integers. The recurrence interval of a
-- recurring rule is positive by its schema. A sweep that throws keeps in the database what it committed
-- before; here it returns the exception alone, and what it committed is a sequence of single charges, each of
-- which is a call in Lending.Reach.
--
-- Not modelled: notifications, logging, the audit entries of lending, loans, leave and branches, uploads
-- and signed URLs, the order of query results, the calls from lending to the ledger and to the bank (what
-- is handed to their ports is recorded in `postings` and `transfers`), manual journal entries and the
-- seeding of the chart, the `initiate` calls of repayments and early liquidations (approval events arrive
-- as inputs), two sweeps at once, and the modules for staff, customers, groups, branches other than their
-- funds and fundings, leave types, products and
-- configuration, the guards of the controllers and the table of default capabilities.

pub mod Common
pub mod Workflow
pub mod Calc
pub mod Lending
pub mod Accounting
pub mod Branches
pub mod Loans
pub mod Leave
pub mod Rbac
